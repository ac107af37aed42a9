-- ===== src/Store/Scan/Keys.antt =====
-- KEYS lists exactly the live keys of clients that match the pattern, in order.
use torii_db.Base.{
  ℤ, Text, text_eq_iff, text_ltb, text_ltb_asym, text_ltb_trans, is_in, Dict, Bool, false, not,
  ◌&&◌, Option, none, some, [], ◌∷◌, lookup, NodupKeys, ◌≡◌, refl, arith, ◌∙◌,
}
use torii_db.Base.Sort.{IsSorted, sort-IsSorted}
use torii_db.Base.Sort.Members.{is_in-sort}
use torii_db.External.{External}
use torii_db.Store.Entry.{Entry, is_expired}
use torii_db.Store.Vector.{is_internal}
use torii_db.Store.Db.{Db}
use torii_db.Store.Scan.{matches, matching_keys, keys}

-- Whether an entry is listed.
abbrev pub is_listed : External → ℤ → Text → Text → Option Entry → Bool
is_listed ext now pattern k none = false
is_listed ext now pattern k (some e) =
    not (is_internal k) && (not (is_expired e now) && matches (ext.path_match pattern k))

module _ (ext : External) (now : ℤ) (pattern : Text) where
  is_in-matching_keys :
      (k : Text) (m : Dict Entry)
      → NodupKeys m
      → is_in k (matching_keys ext now pattern m) ≡ is_listed ext now pattern k (lookup k m)
  unfolding matching_keys lookup
  is_in-matching_keys k [] n = refl
  is_in-matching_keys k ((j, e) ∷ m) (fresh, n) =
      ground (arith, is_in-matching_keys k m n, text_eq_iff j k)

  -- KEYS gives a sorted list that holds exactly the keys of live entries that are not internal and
  -- match the pattern, if no key is stored twice; a malformed pattern matches nothing.
  pub keys-exact :
      (d : Db)
      → NodupKeys d.entries
      → IsSorted text_ltb (keys ext now pattern d)
        × ((k : Text)
            → is_in k (keys ext now pattern d) ≡ is_listed ext now pattern k (lookup k d.entries))
  unfolding keys
  keys-exact d n = (
    sort-IsSorted text_ltb text_ltb_asym text_ltb_trans _,
    λ k.
        is_in-sort text_ltb k (matching_keys ext now pattern d.entries)
        ∙ is_in-matching_keys k d.entries n,
  )
