-- ===== src/Server/Pops.antt =====
-- internal/command/list_command.go and internal/datastructure/list.go: counts of a pop that the
-- server does not check.
mod Tests
use valkeydb.Base.{
  ℕ, ◌*◌, ◌<◌, ◌≡◌, refl, ◌≢◌, ◌∙◌, Option, none, some, List, [], ◌∷◌, Str, codes, eq_str, true,
  to_upper, max_alloc, Option-cases, inl, inr,
}
use valkeydb.Base.Int.{ℤ, pos, negsuc}
use valkeydb.Base.Map.{get, put}
use valkeydb.Decimal.{parse_int}
use valkeydb.Item.{Item}
use valkeydb.Deque.{Deque}
use valkeydb.ListStore.{Lists, lpop, rpop, item_bytes}
use valkeydb.ListStore.Refine.{Denotes}
use valkeydb.ListStore.Pops.{absent-nil, pop-panics}
use valkeydb.Resp.{Value, text_of}
use valkeydb.Command.{Db, Env, Handler}
use valkeydb.Command.Sequences.{cmd_lpop, cmd_rpop, pop_reply, pop_count}
use valkeydb.Command.Registry.{
  find, init, register, register_all, dict_commands, set_commands, list_commands, system_commands,
  pubsub_commands, hash_commands,
}
use valkeydb.Server.{Server, dispatch_command, serve, handle_request, handle_conn}
use valkeydb.Server.Dispatch.{dispatch-found}
use valkeydb.Server.Session.{Asks}

-- Below 0, or more items than can be allocated.
abbrev pub IsUnfit : ℤ → Type 0
IsUnfit (negsuc n) = Unit
IsUnfit (pos n) = max_alloc < n * item_bytes

-- The two ends of a list.
pub data Side : Type 0 where
  left right : Side

abbrev pub pop_name : Side → Str
pop_name left = codes "LPOP"
pop_name right = codes "RPOP"

abbrev pop_of : Side → Handler
pop_of left = cmd_lpop
pop_of right = cmd_rpop

abbrev store_pop : Side → Str → ℤ → Lists → Option (List Item × Lists)
store_pop left = lpop
store_pop right = rpop

store_pop-none :
    (side : Side) (key : Str) (z : ℤ) (l : Lists) (d : Deque Item)
    → IsUnfit z
    → get key l ≡ some d
    → store_pop side key z l ≡ none
store_pop-none left key (negsuc n) l d u e = (pop-panics key n l d e).0
store_pop-none left key (pos n) l d u e = ((pop-panics key n l d e).2 u).0
store_pop-none right key (negsuc n) l d u e = (pop-panics key n l d e).1
store_pop-none right key (pos n) l d u e = ((pop-panics key n l d e).2 u).1

pop_reply-none :
    (pop : Str → ℤ → Lists → Option (List Item × Lists)) (key : Str) (count : Value) (z : ℤ)
    (db : Db)
    → parse_int (text_of count) ≡ some z
    → pop key z db.list ≡ none
    → pop_reply pop key (count ∷ []) db ≡ none
unfolding pop_reply pop_count
pop_reply-none pop key count z db p e = rw (p, e, pop_reply) refl

pop_of-none :
    (side : Side) (key count : Value) (z : ℤ) (db : Db)
    → parse_int (text_of count) ≡ some z
    → store_pop side (text_of key) z db.list ≡ none
    → pop_of side (key ∷ count ∷ []) db ≡ none
unfolding cmd_lpop cmd_rpop
pop_of-none left key count z db p e = pop_reply-none lpop (text_of key) count z db p e
pop_of-none right key count z db p e = pop_reply-none rpop (text_of key) count z db p e

module _ (env : Env) where
  find-pop : (side : Side) → find (pop_name side) (init env) ≡ some (pop_of side)
  unfolding find init register register_all dict_commands set_commands list_commands system_commands
      pubsub_commands hash_commands get put to_upper eq_str
  find-pop left = refl
  find-pop right = refl

  panicking :
      (req : Value) (rest : List Value) (s : Server)
      → dispatch_command env req s.db ≡ none
      → handle_conn env true (req ∷ rest) s ≡ none
  unfolding handle_conn handle_request serve
  panicking req rest s d = rw d refl

  -- Where the list under the key is not empty, an LPOP or RPOP with a count that is an int64 and below
  -- 0, or whose items would take more bytes than can be allocated, panics: a client that may run
  -- commands and sends one brings the server down, whatever it sends next.
  pub handle_conn-unfit_pop :
      (side : Side) (req key count : Value) (z : ℤ) (rest : List Value) (s : Server)
      (f : Str → List Item)
      → Asks req (pop_name side) (key ∷ count ∷ [])
      → parse_int (text_of count) ≡ some z
      → IsUnfit z
      → Denotes s.db.list f
      → f (text_of key) ≢ []
      → handle_conn env true (req ∷ rest) s ≡ none
  handle_conn-unfit_pop side req key count z rest s f a p u stands full =
      elim (Option-cases (get (text_of key) s.db.list)) [
        | inl e ↦ absurd (
            full
              (absent-nil (get (text_of key) s.db.list) (f (text_of key)) (stands (text_of key)) e))
        | inr (d, e) ↦ panicking req rest s (
            dispatch-found env req a.command (key ∷ count ∷ []) (pop_of side) s.db a.parts a.array
              (rw a.named (find-pop side))
            ∙ pop_of-none side key count z s.db p
                (store_pop-none side (text_of key) z s.db.list d u e))
      ]
