-- ===== src/Store/Set/Flags.antt =====
-- What the flags of SET see of the commands before it: core/store/set.go and core/store/del.go.
use torii_db.Base.{
  ℕ, ℤ, Text, text_eq_refl, Option, none, some, [], ◌∷◌, lookup, is_some, ◌≡◌, refl,
}
use torii_db.External.{External}
use torii_db.Store.Db.{Db, Io, key_already_exists, key_not_found}
use torii_db.Store.Del.{del}
use torii_db.Store.Del.Laws.{lookup-del}
use torii_db.Store.Set.{SetFlag, set_nx, set_xx, check_flag, set, set_entry}
use torii_db.Store.Set.Laws.{lookup-set, set-stopped}

module _ (ext : External) where
  -- Behind a SET that its flag lets through, a SET NX of the same key is refused at any time, also
  -- when the entry has expired and nothing has removed it; and behind a DEL of the key that
  -- follows, a SET XX is refused. Both leave the database as they found it, whatever the writes of
  -- the log returned.
  pub set_again-refused :
      (io again : Io) (env : ℕ → Io) (now later : ℤ) (key value other : Text) (flag : SetFlag)
      (t t' : Option ℤ) (d : Db)
      → check_flag flag key (is_some (lookup key d.entries)) ≡ none
      → let after = (set ext io now key value flag t d).0 in
        let gone = (del ext env (key ∷ []) after).0 in
        (set ext again later key other set_nx t' after ≡ (after, some (key_already_exists key)))
        × (set ext again later key other set_xx t' gone ≡ (gone, some (key_not_found key)))
  unfolding check_flag
  set_again-refused io again env now later key value other flag t t' d free =
      let after = (set ext io now key value flag t d).0 in
      let gone = (del ext env (key ∷ []) after).0 in
      let there : lookup key after.entries
          ≡ some (set_entry ext now key value t (lookup key d.entries)) =
        rw (lookup-set ext io now key value flag t d key free, text_eq_refl) refl in
      let missing : lookup key gone.entries ≡ none =
        rw (lookup-del ext env (key ∷ []) key after, text_eq_refl) refl in
      (
        set-stopped ext again later key other set_nx t' after _ (rw there refl),
        set-stopped ext again later key other set_xx t' gone _ (rw missing refl),
      )
