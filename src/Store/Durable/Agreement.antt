-- ===== src/Store/Durable/Agreement.antt =====
-- What keeps two maps of entries alike: the same change on both, and dropping what
-- has expired.
use torii_db.Base.{
  text_eq_iff, ℤ, Text, text_eq, Dict, Bool, true, false, Option, none, some, lookup, insert, erase,
  lookup-insert, lookup-erase, if◌then◌else◌, ◌≡◌, inl, inr, refl, arith, ◌≤ℤ◌, Bool-cases,
}
use torii_db.Store.Durable.{view, Same, Agree}
use torii_db.Store.Entry.{Entry, is_expired}
use mathlib.Core.Path.{subst}

pub Same-if :
    (now : ℤ) (c : Bool) (a b a' b' : Option Entry)
    → Same now a b
    → Same now a' b'
    → Same now (if c then a else a') (if c then b else b')
Same-if now true a b a' b' h k = h
Same-if now false a b a' b' h k = k

pub Agree-insert :
    (now : ℤ) (key : Text) (a b : Entry) (m m' : Dict Entry)
    → view (some a) ≡ view (some b)
    → Agree now m m'
    → Agree now (insert key a m) (insert key b m')
Agree-insert now key a b m m' same agree k =
    rw (lookup-insert key k a m, lookup-insert key k b m')
      (Same-if now (text_eq key k) _ _ _ _ (inl same) (agree k))

pub Agree-erase :
    (now : ℤ) (key : Text) (m m' : Dict Entry)
    → Agree now m m'
    → Agree now (erase key m) (erase key m')
Agree-erase now key m m' agree k =
    rw (lookup-erase key k m, lookup-erase key k m')
      (Same-if now (text_eq key k) _ _ _ _ (inl refl) (agree k))

-- What is gone may be missing.
pub Same-drop :
    (now : ℤ) (a : Option Entry) (e : Entry)
    → is_expired e now ≡ true
    → Same now a (some e)
    → Same now a none
Same-drop now none e past (inl h) = cc
Same-drop now (some f) e past (inl h) = inr (unfold is_expired in ground arith, tt)
Same-drop now a e past (inr (x, y)) = inr (x, tt)

-- What has expired is gone for later readers too, and may be removed.
pub Agree-drop :
    (clock now : ℤ) (key : Text) (e : Entry) (m m' : Dict Entry)
    → clock ≤ℤ now
    → lookup key m' ≡ some e
    → is_expired e clock ≡ true
    → Agree now m m'
    → Agree now m (erase key m')
Agree-drop clock now key e m m' le found gone agree k = elim (Bool-cases (text_eq key k)) [
  | inr other ↦ rw lookup-erase (rw other (agree k))
  | inl same ↦
      let here : lookup k m' ≡ some e = ground (arith, text_eq_iff key k) in
      rw lookup-erase (
        rw same (
          Same-drop now (lookup k m) e (unfold is_expired in ground arith)
            (subst (Same now (lookup k m)) here (agree k))))
]

-- A live entry in memory has its like in the log.
pub Same-live :
    (now : ℤ) (a : Option Entry) (e : Entry)
    → is_expired e now ≡ false
    → Same now a (some e)
    → (f : Entry) × (a ≡ some f) × (view (some f) ≡ view (some e))
Same-live now none e live (inl h) = cc
Same-live now (some f) e live (inl h) = (f, refl, h)
Same-live now a e live (inr (x, gone)) = cc

-- An expiry that is set on entries that look alike leaves them alike.
pub view-expire_at :
    (a b : Entry) (t : Option ℤ)
    → view (some a) ≡ view (some b)
    → view (some (record a { expire_at = t })) ≡ view (some (record b { expire_at = t }))
view-expire_at a b t h = ground arith
