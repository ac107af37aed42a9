-- ===== src/Daemon/Call/Laws.antt =====
-- A call loses no connection, keeps the pool small, and returns the first response that it can get.
use torii_db.Base.{
  ℕ, zero, suc, ◌+◌, ◌≤◌, ◌<◌, Bool, true, false, ◌&&◌, Option, none, some, List, [], ◌∷◌, ◌++◌,
  length, ltb, leb, ◌==◌, if◌then◌else◌, ◌≡◌, refl, arith, ◌∙◌, Bool-cases, Option-cases, inl, inr,
  ◌⊎◌,
}
use torii_db.Daemon.Call.{
  call_attempts, CallError, completed, broke, Outcome, exchange, dropped, Meets, response, attempts,
  reuse, call, dial_failed, no_attempt,
}
use torii_db.Daemon.Pool.{
  max_idle_conns, Pooled, Pool, close_conn, take_fresh, take_conn, put_conn, conns, close_client,
  add_dialed,
}
use torii_db.Daemon.Protocol.{Response, Wire}

abbrev pub count : ℕ → List ℕ → ℕ
count a [] = 0
count a (x ∷ xs) = (if x == a then 1 else 0) + count a xs

-- Every connection that was dialed is idle or closed, and as often; few are idle.
pub record IsKept (p : Pool) : Type 0 where
  pub few : length p.idle ≤ max_idle_conns
  pub kept : (a : ℕ) → count a (conns p.idle) + count a p.closed ≡ count a p.dialed

-- The same with one more connection, which is in use.
record IsUsing (conn : ℕ) (p : Pool) : Type 0 where
  few : length p.idle ≤ max_idle_conns
  kept : (a : ℕ) → count a (conn ∷ conns p.idle) + count a p.closed ≡ count a p.dialed

close_conn-IsKept : (conn : ℕ) (p : Pool) → IsUsing conn p → IsKept (close_conn conn p)
unfolding close_conn
close_conn-IsKept conn p u = record { few = u.few; kept = λ a. ground (arith, u.kept a) }

put_conn-IsKept :
    (now conn : ℕ) (reusable : Bool) (p : Pool)
    → IsUsing conn p
    → IsKept (put_conn now conn reusable p)
unfolding put_conn close_conn
put_conn-IsKept now conn true p u = elim (Bool-cases (leb max_idle_conns (length p.idle))) [
  | inl full ↦ rw full (close_conn-IsKept conn p u)
  | inr room ↦ rw room (record { few = ground arith; kept = λ a. ground (arith, u.kept a) })
]
put_conn-IsKept now conn false p u = close_conn-IsKept conn p u

add_dialed-IsUsing : (conn : ℕ) (p : Pool) → IsKept p → IsUsing conn (add_dialed conn p)
unfolding add_dialed
add_dialed-IsUsing conn p k = record { few = k.few; kept = λ a. ground (arith, k.kept a) }

-- What `take` gives and closes was idle.
take_fresh-count :
    (now : ℕ) (idle : List Pooled) (closed : List ℕ) (a : ℕ)
    → let t = take_fresh now idle closed in
      count a (conns t.0) + count a t.2 + (elim t.1 [ none ↦ 0 | some conn ↦ count a (conn ∷ []) ])
      ≡ count a (conns idle) + count a closed
unfolding take_fresh
take_fresh-count now [] closed a = omega arith
take_fresh-count now (last ∷ rest) closed a =
    ground (arith, take_fresh-count now rest (last.conn ∷ closed) a)

take_fresh-length :
    (now : ℕ) (idle : List Pooled) (closed : List ℕ)
    → length (take_fresh now idle closed).0 ≤ length idle
unfolding take_fresh
take_fresh-length now [] closed = omega arith
take_fresh-length now (last ∷ rest) closed =
    ground (arith, take_fresh-length now rest (last.conn ∷ closed))

-- A pool, with the connection that was taken from it, if there is one.
abbrev Taken : Pool × Option ℕ → Type 0
Taken (p, none) = IsKept p
Taken (p, some conn) = IsUsing conn p

take_conn-Taken : (now : ℕ) (p : Pool) → IsKept p → Taken (take_conn now p)
unfolding take_conn
take_conn-Taken now p k = elim (Option-cases (take_fresh now p.idle p.closed).1) [
  | inl e ↦ rw e (record {
    few = omega (arith, take_fresh-length now p.idle p.closed, k.few);
    kept = λ a. ground (arith, take_fresh-count now p.idle p.closed a, k.kept a);
  })
  | inr (conn, e) ↦ rw e (record {
    few = omega (arith, take_fresh-length now p.idle p.closed, k.few);
    kept = λ a. ground (arith, take_fresh-count now p.idle p.closed a, k.kept a);
  })
]

Outcome-cases :
    (o : Outcome)
    → ((r : Response) × (reusable : Bool) × (o ≡ completed r reusable))
      ⊎ ((e : CallError) × (o ≡ broke e))
Outcome-cases (completed r reusable) = inl (r, reusable, refl)
Outcome-cases (broke e) = inr (e, refl)

module _ (wire : Wire) (m : Meets) where
  attempts-IsKept :
      (left i : ℕ) (last : CallError) (p : Pool)
      → IsKept p
      → IsKept (attempts wire m left i last p).0
  unfolding attempts
  attempts-IsKept zero i last p k = k
  attempts-IsKept (suc left) i last p k = elim (Bool-cases (ltb 0 i && (m.attempt i).gave_up)) [
    | inl stop ↦ rw stop k
    | inr more ↦ elim (Option-cases (m.attempt i).dials) [
      | inl none_there ↦ rw (more, none_there) (attempts-IsKept left (suc i) dial_failed p k)
      | inr (conn, there) ↦
          let using = add_dialed-IsUsing conn p k in
          elim (Outcome-cases (exchange wire (m.attempt i).then_)) [
            | inl (r, reusable, e) ↦
                rw (more, there, e) (put_conn-IsKept m.later conn reusable _ using)
            | inr (err, e) ↦
                let closed = close_conn-IsKept conn (add_dialed conn p) using in
                elim (Bool-cases (dropped err)) [
                  | inl lost ↦ rw (more, there, e, lost) (attempts-IsKept left (suc i) err _ closed)
                  | inr final ↦ rw (more, there, e, final) closed
                ]
          ]
    ]
  ]

  reuse-IsKept : (t : Pool × Option ℕ) → Taken t → IsKept (reuse wire m t).0
  unfolding reuse
  reuse-IsKept (p, none) k = attempts-IsKept call_attempts 0 no_attempt p k
  reuse-IsKept (p, some conn) u = elim (Outcome-cases (exchange wire m.pooled)) [
    | inl (r, reusable, e) ↦ rw (reuse, e) (put_conn-IsKept m.later conn reusable p u)
    | inr (err, e) ↦ elim (Bool-cases (dropped err)) [
      | inl lost ↦
          rw (reuse, e, lost)
            (attempts-IsKept call_attempts 0 no_attempt _ (close_conn-IsKept conn p u))
      | inr final ↦ rw (reuse, e, final) (close_conn-IsKept conn p u)
    ]
  ]

  -- A call, however its exchanges and dials come out, leaves at most 8 idle connections, and every
  -- connection that was dialed idle or closed, as often as it was dialed, if this held before it.
  pub call-IsKept : (p : Pool) → IsKept p → IsKept (call wire m p).0
  unfolding call
  call-IsKept p k = reuse-IsKept (take_conn m.now p) (take_conn-Taken m.now p k)

  -- An attempt that leaves the way to the next one free.
  abbrev pub GoesOn : ℕ → Type 0
  GoesOn i =
      ((m.attempt i).dials ≡ none)
      ⊎ ((conn : ℕ) × (e : CallError) × ((m.attempt i).dials ≡ some conn)
          × (exchange wire (m.attempt i).then_ ≡ broke e)
          × (dropped e ≡ true))

  -- The attempts from `i` on come to the one numbered `i + k`, which is answered.
  attempts-answered :
      (k left i : ℕ) (last : CallError) (conn : ℕ) (r : Response) (reusable : Bool) (p : Pool)
      → k < left
      → ((j : ℕ) → (m.attempt j).gave_up ≡ false)
      → ((j : ℕ) → i ≤ j → j < i + k → GoesOn j)
      → (m.attempt (i + k)).dials ≡ some conn
      → exchange wire (m.attempt (i + k)).then_ ≡ completed r reusable
      → (attempts wire m left i last p).1 ≡ response r
  unfolding attempts
  attempts-answered k zero i last conn r reusable p h waits before there e = absurd (omega arith)
  attempts-answered zero (suc left) i last conn r reusable p h waits before there e =
      let here : i + 0 ≡ i = omega arith in ground (arith, waits i, rw here at there, rw here at e)
  attempts-answered (suc k) (suc left) i last conn r reusable p h waits before there e =
      let next : i + suc k ≡ suc i + k = omega arith in
      let rest = λ (last' : CallError) (q : Pool).
        attempts-answered k left (suc i) last' conn r reusable q (omega arith) waits
          (λ j low high. before j (omega arith) (omega arith)) (rw next at there) (rw next at e) in
      elim (before i (omega arith) (omega arith)) [
        | inl none_there ↦ ground (arith, waits i, rest dial_failed p)
        | inr (used, err, dialed, broken, lost) ↦
            ground (arith, waits i, rest err (close_conn used (add_dialed used p)))
      ]

  reuse-answered :
      (k : ℕ) (conn : ℕ) (r : Response) (reusable : Bool) (t : Pool × Option ℕ)
      → k < call_attempts
      → ((j : ℕ) → (m.attempt j).gave_up ≡ false)
      → ((j : ℕ) → j < k → GoesOn j)
      → (t.1 ≡ none) ⊎ ((e : CallError) × (exchange wire m.pooled ≡ broke e) × (dropped e ≡ true))
      → (m.attempt k).dials ≡ some conn
      → exchange wire (m.attempt k).then_ ≡ completed r reusable
      → (reuse wire m t).1 ≡ response r
  unfolding reuse
  reuse-answered k conn r reusable (p, none) h waits before start there e =
      let zero_k : 0 + k ≡ k = omega arith in
      attempts-answered k call_attempts 0 no_attempt conn r reusable p h waits
        (λ j low high. before j (omega arith)) (rw zero_k there) (rw zero_k e)
  reuse-answered k conn r reusable (p, some c) h waits before start there e =
      let zero_k : 0 + k ≡ k = omega arith in
      let rest =
        attempts-answered k call_attempts 0 no_attempt conn r reusable (close_conn c p) h waits
          (λ j low high. before j (omega arith)) (rw zero_k there) (rw zero_k e) in
      elim start [ inl none_taken ↦ cc | inr (err, broken, lost) ↦ rw (reuse, broken, lost) rest ]

  -- A call returns the response of the first of its three attempts that is answered, if those
  -- before it were lost connections or failed dials, the context does not end in the waits, and no
  -- pooled connection was there or it was lost.
  pub call-answered :
      (k : ℕ) (conn : ℕ) (r : Response) (reusable : Bool) (p : Pool)
      → k < call_attempts
      → ((j : ℕ) → (m.attempt j).gave_up ≡ false)
      → ((j : ℕ) → j < k → GoesOn j)
      → ((take_conn m.now p).1 ≡ none)
        ⊎ ((e : CallError) × (exchange wire m.pooled ≡ broke e) × (dropped e ≡ true))
      → (m.attempt k).dials ≡ some conn
      → exchange wire (m.attempt k).then_ ≡ completed r reusable
      → (call wire m p).1 ≡ response r
  unfolding call
  call-answered k conn r reusable p h waits before start there e =
      reuse-answered k conn r reusable (take_conn m.now p) h waits before start there e

-- A client that is closed holds no connection.
pub close_client-closed :
    (p : Pool)
    → IsKept p
    → ((close_client p).idle ≡ [])
      × ((a : ℕ) → count a (close_client p).closed ≡ count a (close_client p).dialed)
unfolding close_client
close_client-closed p k = (refl, λ a. count-append a (conns p.idle) p.closed ∙ k.kept a)
  where
    count-append : (a : ℕ) (xs ys : List ℕ) → count a (xs ++ ys) ≡ count a xs + count a ys
    count-append a [] ys = omega arith
    count-append a (x ∷ xs) ys = ground (arith, count-append a xs ys)
