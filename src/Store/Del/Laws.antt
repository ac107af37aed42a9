-- ===== src/Store/Del/Laws.antt =====
-- What DEL removes, and what it counts.
use torii_db.Base.{
  ℕ, suc, ◌+◌, Text, text_eq_iff, is_in, Dict, none, some, List, [], ◌∷◌, lookup, erase,
  lookup-erase, NodupKeys, erase-NodupKeys, length, if◌then◌else◌, ◌≡◌, refl, arith, ap,
  Option-cases, inl, inr,
}
use torii_db.External.{External}
use torii_db.Store.Entry.{Entry}
use torii_db.Store.Db.{Db, Io}
use torii_db.Store.Aof.{add_to_aof-entries}
use torii_db.Store.Del.{del, del_found}

erase_absent : (k : Text) (m : Dict Entry) → lookup k m ≡ none → erase k m ≡ m
unfolding lookup erase
erase_absent k [] h = refl
erase_absent k ((j, e) ∷ m) h = ground (arith, erase_absent k m)

length-erase :
    (k : Text) (e : Entry) (m : Dict Entry)
    → NodupKeys m
    → lookup k m ≡ some e
    → length (erase k m) + 1 ≡ length m
unfolding lookup erase
length-erase k e [] n h = cc
length-erase k e ((j, f) ∷ m) (fresh, n) h =
    ground (arith, length-erase k e m n, erase_absent k m, text_eq_iff j k)

module _ (ext : External) where
  del_found-entries :
      (io : Io) (key : Text) (d : Db) → (del_found ext io key d).entries ≡ erase key d.entries
  unfolding del_found
  del_found-entries io key d = add_to_aof-entries ext io _ key [] none _

  -- After DEL of a list of keys none of them is there and every other key holds what it held,
  -- whatever the log writes return.
  pub lookup-del :
      (env : ℕ → Io) (keys : List Text) (k : Text) (d : Db)
      → lookup k (del ext env keys d).0.entries
        ≡ (if is_in k keys then none else lookup k d.entries)
  unfolding del
  lookup-del env [] k d = refl
  lookup-del env (key ∷ keys) k d = elim (Option-cases (lookup key d.entries)) [
    | inl e ↦ ground (arith, lookup-del env keys k d, text_eq_iff key k)
    | inr (f, e) ↦ ground (
      arith,
      lookup-del (λ n. env (suc n)) keys k (del_found ext (env 0) key d),
      del_found-entries (env 0) key d,
      lookup-erase key k d.entries,
    )
  ]

  -- The number that DEL returns is the number of entries that went, repeated and missing names
  -- included, if no key is stored twice.
  pub length-del :
      (env : ℕ → Io) (keys : List Text) (d : Db)
      → NodupKeys d.entries
      → length (del ext env keys d).0.entries + (del ext env keys d).1 ≡ length d.entries
  unfolding del
  length-del env [] d n = omega arith
  length-del env (key ∷ keys) d n = elim (Option-cases (lookup key d.entries)) [
    | inl e ↦ ground (arith, length-del env keys d n)
    | inr (f, e) ↦
        let gone = del_found-entries (env 0) key d in
        let rest =
          length-del (λ n. env (suc n)) keys (del_found ext (env 0) key d)
            (rw gone (erase-NodupKeys key d.entries n)) in
        ground (arith, rest, ap (length {A = Text × Entry}) gone, length-erase key f d.entries n e)
  ]
