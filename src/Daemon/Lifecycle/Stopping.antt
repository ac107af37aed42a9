-- ===== src/Daemon/Lifecycle/Stopping.antt =====
-- What a Stop has closed when it waits for the goroutines of the connections.
use torii_db.Base.{
  ℕ, ◌+◌, ◌-◌, ◌<◌, Bool, true, false, not, ◌&&◌, ◌||◌, Option, none, some, List, [], ◌∷◌, ◌++◌,
  ◌==◌, is_empty, ◌≡◌, ◌≢◌, refl, inl, inr, Bool-cases, arith,
}
use torii_db.Daemon.Lifecycle.{
  Life, new_daemon, has, remove, is_listening, start_unless, accept_conn, end_serve, begin_stop,
}

has-remove : (x y : ℕ) (ys : List ℕ) → has x (remove y ys) ≡ (not (x == y) && has x ys)
unfolding has remove
has-remove x y [] = ground arith
has-remove x y (z ∷ zs) = ground (arith, has-remove x y zs)

has-append : (x : ℕ) (xs ys : List ℕ) → has x (xs ++ ys) ≡ (has x xs || has x ys)
unfolding has
has-append x [] ys = refl
has-append x (z ∷ zs) ys = ground (arith, has-append x zs ys)

has-is_empty : (x : ℕ) (xs : List ℕ) → has x xs ≡ true → is_empty xs ≡ false
unfolding has
has-is_empty x [] h = absurd cc
has-is_empty x (y ∷ ys) h = refl

empty-has : (x : ℕ) (xs : List ℕ) → is_empty xs ≡ true → has x xs ≡ false
unfolding has
empty-has x [] h = refl
empty-has x (y ∷ ys) h = absurd cc

pub empty-remove : (x : ℕ) (xs : List ℕ) → is_empty xs ≡ true → is_empty (remove x xs) ≡ true
unfolding remove
empty-remove x [] h = refl
empty-remove x (y ∷ ys) h = absurd cc

-- No Stop is between its first and its last step.
unfoldable pub is_calm : Life → Bool
is_calm l = is_empty l.awaiting && (l.closing == 0) && (l.draining == 0)

pub record IsLive (l : Life) : Type 0 where
  -- A connection that is served is one that the daemon knows, or is closed.
  pub known :
      (conn : ℕ) → has conn l.serving ≡ true → (has conn l.conns || has conn l.closed) ≡ true
  pub at_rest : l.listener ≡ none → is_calm l ≡ true → is_empty l.serving ≡ true
  pub stopping : is_calm l ≡ false → l.listener ≡ none
  pub drained : 0 < l.draining → (conn : ℕ) → has conn l.serving ≡ true → has conn l.closed ≡ true

draining-stops : (l : Life) → 0 < l.draining → is_calm l ≡ false
unfolding is_calm
draining-stops l h = ground arith

pub new_daemon-IsLive : IsLive new_daemon
unfolding has is_calm
new_daemon-IsLive = record {
  known = λ conn h. absurd cc;
  at_rest = λ h k. refl;
  stopping = λ h. refl;
  drained = λ h conn k. absurd cc;
}

pub start-IsLive :
    (listens : Bool) (l : Life)
    → is_calm l ≡ true
    → IsLive l
    → IsLive (start_unless listens l.listener l)
start-IsLive listens l calm i = from_ listens l.listener refl
  where
    from_ : (b : Bool) (o : Option ℕ) → l.listener ≡ o → IsLive (start_unless b o l)
    from_ b (some g) there = unfold start_unless in i
    from_ false none there = unfold start_unless in i
    from_ true none there =
        let none_served : is_empty l.serving ≡ true = i.at_rest there calm in
        unfold start_unless is_calm in
        record {
          known = λ conn h. ground (arith, empty-has conn l.serving none_served);
          at_rest = λ h k. none_served;
          stopping = λ h. ground arith;
          drained = λ h conn k. ground (arith, empty-has conn l.serving none_served);
        }

not_listening : (g : ℕ) (l : Life) → is_listening l.listener g ≡ true → l.listener ≢ none
not_listening g l h e = let off : is_listening none g ≡ true = rw e at h in absurd cc

pub accepts-IsLive : (g conn : ℕ) (l : Life) → IsLive l → IsLive (accept_conn g conn l)
unfolding accept_conn has is_calm
accepts-IsLive g conn l i = elim (Bool-cases (is_listening l.listener g)) [
  | inl listening ↦ rw listening (record {
    known = λ c h. ground (arith, i.known c);
    at_rest = λ h k. absurd (not_listening g l listening h);
    stopping = i.stopping;
    drained = λ h c k. absurd (not_listening g l listening (i.stopping (draining-stops l h)));
  })
  | inr other ↦ rw other (record {
    known = λ c h. ground (arith, i.known c);
    at_rest = i.at_rest;
    stopping = i.stopping;
    drained = λ h c k. ground (arith, i.drained h c);
  })
]

pub accept_fails-IsLive :
    (g : ℕ) (l : Life) → IsLive l → IsLive (record l { accepting = remove g l.accepting })
unfolding is_calm
accept_fails-IsLive g l i = record {
  known = i.known;
  at_rest = i.at_rest;
  stopping = i.stopping;
  drained = i.drained;
}

pub serve_ends-IsLive : (conn : ℕ) (l : Life) → IsLive l → IsLive (end_serve conn l)
unfolding end_serve has is_calm
serve_ends-IsLive conn l i = record {
  known = λ c h. ground (arith, i.known c, has-remove c conn l.serving, has-remove c conn l.conns);
  at_rest = λ h k. empty-remove conn l.serving (i.at_rest h k);
  stopping = i.stopping;
  drained = λ h c k. ground (arith, i.drained h c, has-remove c conn l.serving);
}

pub begin_stop-IsLive : (l : Life) → IsLive l → IsLive (begin_stop l.listener l)
begin_stop-IsLive l i = of l.listener refl
  where
    of : (o : Option ℕ) → l.listener ≡ o → IsLive (begin_stop o l)
    of none there = unfold begin_stop in i
    of (some g) there =
        unfold begin_stop is_calm in
        record {
          known = i.known;
          at_rest = λ h k. absurd cc;
          stopping = λ h. refl;
          drained = i.drained;
        }

pub stop_accepted-IsLive :
    (g : ℕ) (l : Life)
    → has g l.awaiting ≡ true
    → IsLive l
    → IsLive (record l { awaiting = remove g l.awaiting; closing = l.closing + 1 })
unfolding is_calm
stop_accepted-IsLive g l waits i =
    let active : is_calm l ≡ false = ground (arith, has-is_empty g l.awaiting waits) in
    record {
      known = i.known;
      at_rest = λ h k. ground arith;
      stopping = λ h. i.stopping active;
      drained = i.drained;
    }

pub stop_closes-IsLive :
    (l : Life)
    → 0 < l.closing
    → IsLive l
    → IsLive (record l {
      closed = l.conns ++ l.closed;
      closing = l.closing - 1;
      draining = l.draining + 1;
    })
unfolding is_calm
stop_closes-IsLive l some_closing i =
    let active : is_calm l ≡ false = ground arith in
    record {
      known = λ c h. ground (arith, i.known c, has-append c l.conns l.closed);
      at_rest = λ h k. ground arith;
      stopping = λ h. i.stopping active;
      drained = λ h c k. ground (arith, i.known c, has-append c l.conns l.closed);
    }

pub stop_returns-IsLive :
    (l : Life)
    → 0 < l.draining
    → is_empty l.serving ≡ true
    → IsLive l
    → IsLive (record l { draining = l.draining - 1 })
unfolding is_calm
stop_returns-IsLive l some_draining none_served i = record {
  known = i.known;
  at_rest = λ h k. none_served;
  stopping = λ h. i.stopping (draining-stops l some_draining);
  drained = λ h c k. i.drained some_draining c k;
}
