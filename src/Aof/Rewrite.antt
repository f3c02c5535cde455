-- ===== src/Aof/Rewrite.antt =====
-- A rewrite of the log.
use valkeydb.Base.{
  ◌≡◌, refl, true, some, List, [], ◌∷◌, ◌++◌, arith, Str, ◌||◌, not, Bool-cases, inl, inr, ◌∙◌,
}
use valkeydb.Base.Map.{Map}
use valkeydb.Item.{Item}
use valkeydb.Resp.{Value, encode}
use valkeydb.Aof.{Aof, append, rewrite, rewrite_entries, encode_entries}
use valkeydb.Aof.Load.{append_all}

append-unlinked :
    (v : Value) (a : Aof) (old : Str)
    → a.unlinked ≡ some old
    → ((append v a).file ≡ a.file) × ((o : Str) × ((append v a).unlinked ≡ some o))
unfolding append
append-unlinked v a old e = elim (Bool-cases (not a.enabled || a.replaying)) [
  | inl x ↦ (ground (arith, x), (old, ground (arith, x, e)))
  | inr x ↦ (ground (arith, x, e), (old ++ encode v, ground (arith, x, e)))
]

append_all-unlinked :
    (vs : List Value) (a : Aof) (old : Str)
    → a.unlinked ≡ some old
    → (append_all vs a).file ≡ a.file
unfolding append_all
append_all-unlinked [] a old e = refl
append_all-unlinked (v ∷ vs) a old e =
    let (same, (o, e')) = append-unlinked v a old e in
    append_all-unlinked vs (append v a) o e' ∙ same

-- After a rewrite of a log that is enabled, nothing that is appended reaches the file at the
-- path, which holds the entries of the rewrite and no more.
pub append_all-rewrite :
    (dict_dump set_dump : Map Item) (list_dump : Map (List Item)) (hash_dump : Map (Map Str))
    (vs : List Value) (a : Aof)
    → a.enabled ≡ true
    → (append_all vs (rewrite dict_dump set_dump list_dump hash_dump a)).file
      ≡ encode_entries (rewrite_entries dict_dump set_dump list_dump hash_dump)
unfolding rewrite
append_all-rewrite dict_dump set_dump list_dump hash_dump vs a on =
    rw on (append_all-unlinked vs _ _ refl)
