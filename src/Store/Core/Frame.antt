-- ===== src/Store/Core/Frame.antt =====
-- A command on the current database leaves the other databases, the selection and the embedder.
use torii_db.Base.{
  ℕ, zero, suc, ℤ, Text, Option, none, some, List, [], ◌∷◌, get_or, is_empty, trim_space, ◌≡◌, ◌≢◌,
  refl, ◌∙◌, ap, inl, inr, Bool-cases,
}
use torii_db.External.{External}
use torii_db.Store.Core.{Core, Env, on_db, set_vector, set_vector_with, set_vector_done}
use torii_db.Store.Db.{Db, Error}
use torii_db.Store.Heap.{set_elem}
use torii_db.Store.Search.{Embedder}
use torii_db.Store.Set.{SetFlag, set}

get_or-set_elem-ne :
    (ds : List Db) (i j : ℕ) (d x : Db) → i ≢ j → get_or (set_elem ds i d) j x ≡ get_or ds j x
unfolding set_elem
get_or-set_elem-ne [] i j d x h = refl
get_or-set_elem-ne (e ∷ ds) zero zero d x h = absurd (h refl)
get_or-set_elem-ne (e ∷ ds) zero (suc j) d x h = refl
get_or-set_elem-ne (e ∷ ds) (suc i) zero d x h = refl
get_or-set_elem-ne (e ∷ ds) (suc i) (suc j) d x h =
    get_or-set_elem-ne ds i j d x (λ p. h (ap (λ (k : ℕ). suc k) p))

-- What a request on the selected database may change.
pub record IsFramed (c after : Core) : Type 0 where
  pub same_current : after.current ≡ c.current
  pub same_embedder : after.embedder ≡ c.embedder
  pub others : (i : ℕ) → c.current ≢ i → (x : Db) → get_or after.dbs i x ≡ get_or c.dbs i x

pub IsFramed-refl : (c : Core) → IsFramed c c
IsFramed-refl c = record { same_current = refl; same_embedder = refl; others = λ i h x. refl }

pub IsFramed-trans : {a b c : Core} → IsFramed a b → IsFramed b c → IsFramed a c
IsFramed-trans f g = record {
  same_current = g.same_current ∙ f.same_current;
  same_embedder = g.same_embedder ∙ f.same_embedder;
  others = λ i h x. g.others i (rw f.same_current h) x ∙ f.others i h x;
}

module _ (ext : External) where
  pub on_db-IsFramed :
      {A : Type 0} (env : Env) (command : Db → Db × A) (c : Core)
      → IsFramed c (on_db ext env command c).0
  unfolding on_db
  on_db-IsFramed env command c = record {
    same_current = refl;
    same_embedder = refl;
    others = λ i h x. get_or-set_elem-ne c.dbs c.current i _ x h;
  }

  set_vector_done-IsFramed :
      (key value : Text) (c : Core) (t : Core × Option Error)
      → IsFramed c t.0
      → IsFramed c (set_vector_done ext key value t).0
  unfolding set_vector_done
  set_vector_done-IsFramed key value c (after, some err) f = f
  set_vector_done-IsFramed key value c (after, none) f = record {
    same_current = f.same_current;
    same_embedder = f.same_embedder;
    others = f.others;
  }

  set_vector_with-IsFramed :
      (emb : Option Embedder) (env : Env) (key value : Text) (flag : SetFlag) (expire_at : Option ℤ)
      (c : Core)
      → IsFramed c (set_vector_with ext emb env key value flag expire_at c).0
  unfolding set_vector_with
  set_vector_with-IsFramed none env key value flag expire_at c = IsFramed-refl c
  set_vector_with-IsFramed (some emb) env key value flag expire_at c =
      elim (Bool-cases (is_empty (trim_space value))) [
        | inl empty ↦ rw empty (IsFramed-refl c)
        | inr full ↦ rw full (
            set_vector_done-IsFramed key value c
              (on_db ext env (set ext (env.io 0) env.now key value flag expire_at) c)
              (on_db-IsFramed env (set ext (env.io 0) env.now key value flag expire_at) c))
      ]

  pub set_vector-IsFramed :
      (env : Env) (key value : Text) (flag : SetFlag) (expire_at : Option ℤ) (c : Core)
      → IsFramed c (set_vector ext env key value flag expire_at c).0
  unfolding set_vector
  set_vector-IsFramed env key value flag expire_at c =
      set_vector_with-IsFramed c.embedder env key value flag expire_at c
