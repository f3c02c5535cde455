-- ===== src/Server/Relog.antt =====
-- The log that a rewrite leaves, replayed.
use valkeydb.Base.{
  ℕ, ◌+◌, ◌≡◌, refl, ◌∙◌, ap, sym, none, some, List, [], ◌∷◌, ◌++◌, arith, Str, length, Bool-cases,
  inl, inr, List-cases, Option-cases, append_assoc, append-nil,
}
use valkeydb.Base.Int.{pos}
use valkeydb.Base.Map.{Map, keys}
use valkeydb.Clock.{Time, is_zero, unix_milli, to_unix_milli}
use valkeydb.Item.{Item}
use valkeydb.Dict
use valkeydb.Dict.{Dict}
use valkeydb.SetStore.{sadd}
use valkeydb.ListStore.{Lists, rpush}
use valkeydb.HashStore.{hset}
use valkeydb.Resp.{to_list, Value, Decoded, ok}
use valkeydb.Server.{replay_next}
use valkeydb.Aof.{
  load_value, is_array, is_text, bulks, entry, pexpireat, expiry_entry, dict_entries, set_entries,
  values_of, list_entries, field_entries, hash_entries, rewrite_entries,
}
use valkeydb.Aof.Load.{replay_all}
use valkeydb.Command.{Db, Env}
use valkeydb.Command.Unlogged.{pexpireat-replay}
use valkeydb.Server.Persist.{load_lists, load_fields, load_hashes}
use valkeydb.Server.Redo.{
  IsQuiet, replay_dict, replay_sets, HaveTimes, NeverExpire, suc-nonzero, redo, redo-set, redo-sadd,
  redo-rpush, redo-hset,
}

module _ (envs : ℕ → Env) where
  abbrev redo_all : List Value → ℕ × Db → Decoded (ℕ × Db)
  redo_all vs s = replay_all (replay_next envs) vs s

  redo-next :
      (name : Str) (ts : List Str) (n : ℕ) (db db' : Db)
      → redo (envs n) (entry (name ∷ ts)) db ≡ some db'
      → load_value (replay_next envs) (entry (name ∷ ts)) (n, db) ≡ some (n + 1, db')
  unfolding load_value bulks to_list is_array is_text replay_next
  redo-next name ts n db db' e = rw e refl

  redo_all-cons :
      (name : Str) (ts : List Str) (vs : List Value) (n : ℕ) (db db' : Db)
      → redo (envs n) (entry (name ∷ ts)) db ≡ some db'
      → redo_all (entry (name ∷ ts) ∷ vs) (n, db) ≡ redo_all vs (n + 1, db')
  unfolding replay_all
  redo_all-cons name ts vs n db db' e = rw (redo-next name ts n db db' e, replay_all) refl

  -- When the commands are replayed.
  abbrev pub times : ℕ → Time
  times n = (envs n).clock 0

  redo_dict :
      (m : Map Item) (rest : List Value) (n : ℕ) (db : Db)
      → IsQuiet db
      → HaveTimes m
      → (n' : ℕ) × (redo_all (dict_entries m ++ rest) (n, db)
          ≡ redo_all rest (n', record db { dict = replay_dict times n m db.dict }))
  unfolding dict_entries replay_dict expiry_entry
  redo_dict [] rest n db q t = (n, refl)
  redo_dict ((key, item) ∷ m) rest n db q t =
      let stored = Dict.set key item.value (pos 0) (times n) db.dict in
      let first = redo-set (envs n) key item.value db q in
      elim (Bool-cases (is_zero item.expired_at)) [
        | inl z ↦
            let (n', e) = redo_dict m rest (n + 1) (record db { dict = stored }) q t.1 in
            (n', rw (z, dict_entries) (redo_all-cons _ _ (dict_entries m ++ rest) n db _ first ∙ e))
        | inr z ↦
            let at = unix_milli (to_unix_milli item.expired_at) in
            let timed = (Dict.expire_at key at (times (n + 1)) stored).1 in
            let (n', e) = redo_dict m rest (n + 2) (record db { dict = timed }) q t.1 in
            let two : n + 1 + 1 ≡ n + 2 = omega arith in
            (
              n',
              rw (z, dict_entries)
                  (redo_all-cons _ _ (pexpireat key item.expired_at ∷ (dict_entries m ++ rest)) n db
                      _ first
                    ∙ redo_all-cons _ _ (dict_entries m ++ rest) (n + 1)
                        (record db { dict = stored }) _
                        (pexpireat-replay (envs (n + 1)) key item.expired_at
                          (record db { dict = stored }) t.0)
                    ∙ rw two e),
            )
      ]

  redo_sets :
      (m : Map Item) (rest : List Value) (n : ℕ) (db : Db)
      → IsQuiet db
      → NeverExpire m
      → (n' : ℕ) × (redo_all (set_entries m ++ rest) (n, db)
          ≡ redo_all rest (n', record db { set = replay_sets m db.set }))
  unfolding set_entries replay_sets expiry_entry keys
  redo_sets [] rest n db q t = (n, refl)
  redo_sets ((key, item) ∷ m) rest n db q t = elim (List-cases item.members) [
    | inl e ↦ let (n', f) = redo_sets m rest n db q t.1 in (n', rw (e, set_entries) f)
    | inr ((name, u), members, e) ↦
        let (n', f) =
          redo_sets m rest (n + 1) (record db { set = (sadd key (name ∷ keys members) db.set).1 }) q
            t.1 in
        (
          n',
          rw (e, t.0, set_entries, suc-nonzero (length members))
              (redo_all-cons _ _ (set_entries m ++ rest) n db _
                  (redo-sadd (envs n) key name (keys members) db q)
                ∙ f),
        )
  ]

  redo_lists :
      (m : Map (List Item)) (rest : List Value) (n : ℕ) (db : Db) (l : Lists)
      → IsQuiet db
      → load_lists m db.list ≡ some l
      → (n' : ℕ) × (redo_all (list_entries m ++ rest) (n, db)
          ≡ redo_all rest (n', record db { list = l }))
  unfolding list_entries load_lists values_of
  redo_lists [] rest n db l q e =
      let same : db.list ≡ l = cc in (n, ap (λ x. redo_all rest (n, record db { list = x })) same)
  redo_lists ((key, []) ∷ m) rest n db l q e = redo_lists m rest n db l q e
  redo_lists ((key, i ∷ is) ∷ m) rest n db l q e =
      elim (Option-cases (rpush key (i.value ∷ values_of is) db.list)) [
        | inl f ↦
            let bad : none ≡ some l = rw (suc-nonzero (length is), f) at e in
            absurd (ground (arith, bad))
        | inr ((len, next), f) ↦
            let (n', g) =
              redo_lists m rest (n + 1) (record db { list = next }) l q
                (rw (suc-nonzero (length is), f) at e) in
            (
              n',
              redo_all-cons _ _ (list_entries m ++ rest) n db _
                    (redo-rpush (envs n) key i.value (values_of is) len db next q f)
                  ∙ g,
            )
      ]

  redo_fields :
      (key : Str) (hash : Map Str) (rest : List Value) (n : ℕ) (db : Db)
      → IsQuiet db
      → (n' : ℕ) × (redo_all (field_entries key hash ++ rest) (n, db)
          ≡ redo_all rest (n', record db { hash = load_fields key hash db.hash }))
  unfolding field_entries load_fields
  redo_fields key [] rest n db q = (n, refl)
  redo_fields key ((field, v) ∷ hash) rest n db q =
      let (n', g) =
        redo_fields key hash rest (n + 1)
          (record db { hash = (hset key (field ∷ v ∷ []) db.hash).1 }) q in
      (
        n',
        redo_all-cons _ _ (field_entries key hash ++ rest) n db _
              (redo-hset (envs n) key field v db q)
            ∙ g,
      )

  redo_hashes :
      (m : Map (Map Str)) (rest : List Value) (n : ℕ) (db : Db)
      → IsQuiet db
      → (n' : ℕ) × (redo_all (hash_entries m ++ rest) (n, db)
          ≡ redo_all rest (n', record db { hash = load_hashes m db.hash }))
  unfolding hash_entries load_hashes
  redo_hashes [] rest n db q = (n, refl)
  redo_hashes ((key, hash) ∷ m) rest n db q =
      let (n1, e) = redo_fields key hash (hash_entries m ++ rest) n db q in
      let (n', g) = redo_hashes m rest n1 (record db { hash = load_fields key hash db.hash }) q in
      (n', rw (append_assoc (field_entries key hash) (hash_entries m) rest) (e ∙ g))

  -- Where the sets of the dumps never expire and the milliseconds of every expiry are in int64: the
  -- entries of a rewrite, replayed into stores whose log takes no entries, are the lists and hashes of
  -- the dumps loaded as from a snapshot, and the strings and sets of the dumps stored one by one.
  pub replay_all-rewrite_entries :
      (dict_dump set_dump : Map Item) (list_dump : Map (List Item)) (hash_dump : Map (Map Str))
      (db : Db) (l : Lists)
      → IsQuiet db
      → HaveTimes dict_dump
      → NeverExpire set_dump
      → load_lists list_dump db.list ≡ some l
      → (n : ℕ) × (replay_all
            (replay_next envs)
            (rewrite_entries dict_dump set_dump list_dump hash_dump)
            (0, db)
          ≡ ok (
            n,
            record db {
              dict = replay_dict times 0 dict_dump db.dict;
              set = replay_sets set_dump db.set;
              list = l;
              hash = load_hashes hash_dump db.hash;
            },
          ))
  unfolding rewrite_entries replay_all
  replay_all-rewrite_entries dict_dump set_dump list_dump hash_dump db l q t z e =
      let db1 = record db { dict = replay_dict times 0 dict_dump db.dict } in
      let db2 = record db1 { set = replay_sets set_dump db.set } in
      let db3 = record db2 { list = l } in
      let (n1, e1) = redo_dict dict_dump _ 0 db q t in
      let (n2, e2) = redo_sets set_dump _ n1 db1 q z in
      let (n3, e3) = redo_lists list_dump _ n2 db2 l q e in
      let (n4, e4) = redo_hashes hash_dump [] n3 db3 q in
      (
        n4,
        e1
            ∙ e2
            ∙ e3
            ∙ ap (λ vs. redo_all vs (n3, db3)) (sym (append-nil (hash_entries hash_dump)))
            ∙ e4,
      )
