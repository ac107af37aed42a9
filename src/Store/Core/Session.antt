-- ===== src/Store/Core/Session.antt =====
-- Two commands of a session on the same database: the second works on what the first has left.
use torii_db.Base.{
  ℕ, zero, suc, ◌+◌, ◌<◌, ℤ, Text, true, Option, none, some, List, [], ◌∷◌, get_or, length, ◌≡◌,
  refl, ◌∙◌, arith, Bool-cases, inl, inr,
}
use torii_db.External.{External}
use torii_db.Record.{Record}
use torii_db.Store.Aof.{
  init_log, make_dir, open_log, append_bytes, append_line, after_init, write_aof, add_to_aof,
  add_to_aof_with_vector,
}
use torii_db.Store.Compact.{compact, open_next_log, rename_snapshot, remove_temp, write_temp}
use torii_db.Store.Core.{Core, Env, unloaded, no_disk}
use torii_db.Store.Db.{Db, Io, Outcome}
use torii_db.Store.Heap.{set_elem}
use torii_db.Store.Load.{Reads, ensure_loaded, mark_loaded, load_all-total}
use torii_db.Store.Set.{set, set_default, put_entry, check_flag}
use torii_db.Store.Set.Laws.{set-passed}

get_or-set_elem :
    (ds : List Db) (i : ℕ) (d x : Db) → i < length ds → get_or (set_elem ds i d) i x ≡ d
unfolding set_elem
get_or-set_elem [] i d x h = absurd (omega arith)
get_or-set_elem (e ∷ ds) zero d x h = refl
get_or-set_elem (e ∷ ds) (suc i) d x h = get_or-set_elem ds i d x (omega arith)

module _ (ext : External) where
  compact-loaded : (io : Io) (d : Db) → (compact ext io d).0.loaded ≡ d.loaded
  unfolding compact open_next_log rename_snapshot remove_temp write_temp
  compact-loaded io d = ground arith

  append_line-loaded :
      (io : Io) (line : Text) (d : Db) → (append_line ext io line d).0.loaded ≡ d.loaded
  unfolding append_line append_bytes
  append_line-loaded io line d =
      let done = append_bytes line d in
      ground (arith, compact-loaded io (record done { log_size = d.log_size + length line }))

  init_log-loaded : (io : Io) (d : Db) → (init_log io d).0.loaded ≡ d.loaded
  unfolding init_log make_dir open_log
  init_log-loaded io d = ground arith

  after_init-loaded :
      (io : Io) (r : Record) (o : Outcome) → (after_init ext io r o).0.loaded ≡ o.0.loaded
  unfolding after_init
  after_init-loaded io r (d, none) = append_line-loaded io _ d
  after_init-loaded io r (d, some err) = refl

  set-loaded :
      (io : Io) (now : ℤ) (key value : Text) (t : Option ℤ) (d : Db)
      → (set ext io now key value set_default t d).0.loaded ≡ d.loaded
  unfolding add_to_aof add_to_aof_with_vector write_aof put_entry
  set-loaded io now key value t d =
      let passed = set-passed ext io now key value set_default t d (unfold check_flag in refl) in
      rw passed (after_init-loaded io _ _ ∙ init_log-loaded io _)

  ensure_loaded-loaded : (reads : Reads) (d : Db) → (ensure_loaded ext reads d).loaded ≡ true
  unfolding ensure_loaded mark_loaded
  ensure_loaded-loaded reads d =
      let (d', same) = load_all-total ext reads d in
      elim (Bool-cases d.loaded) [ inl e ↦ rw e refl | inr e ↦ rw (same, e) refl ]

  loaded-ensure_loaded : (reads : Reads) (d : Db) → d.loaded ≡ true → ensure_loaded ext reads d ≡ d
  unfolding ensure_loaded
  loaded-ensure_loaded reads d e = rw e refl

  -- The database that a session's next command works on
  abbrev pub session_db : Env → Core → Db
  session_db env c =
      ensure_loaded ext (env.reads c.current) (get_or c.dbs c.current (unloaded no_disk))

  -- After a SET the next command finds the database as the SET has left it.
  pub session_db-set :
      (first next : Env) (io : Io) (now : ℤ) (key value : Text) (t : Option ℤ) (c : Core)
      → c.current < length c.dbs
      → session_db next (record c {
        dbs =
            set_elem c.dbs c.current
              (set ext io now key value set_default t (session_db first c)).0;
      })
        ≡ (set ext io now key value set_default t (session_db first c)).0
  session_db-set first next io now key value t c there =
      let d = (set ext io now key value set_default t (session_db first c)).0 in
      rw (get_or-set_elem c.dbs c.current d (unloaded no_disk) there) (
        loaded-ensure_loaded (next.reads c.current) d (
          set-loaded io now key value t (session_db first c)
          ∙ ensure_loaded-loaded (first.reads c.current)
              (get_or c.dbs c.current (unloaded no_disk))))
