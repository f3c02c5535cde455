-- ===== src/Server/Session/Later.antt =====
-- A read of what was written, with other requests in between.
use mathlib.Core.Option
use valkeydb.Base.{
  ◌≡◌, refl, ◌∙◌, ap, sym, false, Option, some, List, [], ◌∷◌, ◌>>=◌, Str, codes, arith, to_upper,
  to_upper_twice, After, eq_str, ◌&&◌, if◌then◌else◌, List-cases, Bool-cases, Option-cases, inl,
  inr,
}
use valkeydb.Base.Int.{pos, ltb_ℤ, ◌+ℤ◌, ◌≤ℤ◌}
use valkeydb.Base.Map.{contains}
use valkeydb.Clock.{Time}
use valkeydb.Resp.{Value, simple, bulk, nil_bulk, text_of, type_of, items_of, to_list}
use valkeydb.Aof.{is_array}
use valkeydb.Command.{Db, Env, Handler}
use valkeydb.Command.Registry.{find, init}
use valkeydb.Command.Readers.{SameView, Reads, writers, init-Fair}
use valkeydb.Server.{command_name, dispatch_command}
use valkeydb.Command.Strings.{set_ttl}
use valkeydb.Server.Session.{Asks, reply, reply_of, reply-get, get-set}
use valkeydb.Dict.View.{view}
use valkeydb.Server.Dispatch.{command_name-eq, dispatch-found, dispatch-unknown}

-- A request that is no SET, DEL, EXPIRE or PEXPIREAT, at a time up to `t`.
abbrev pub Elsewhere : Time → Env × Value → Type 0
Elsewhere t (env, req) = (contains writers (command_name req) ≡ false) × (env.clock 0 ≤ℤ t)

module _ (t : Time) (env : Env) (early : env.clock 0 ≤ℤ t) where
  find-Reads :
      (name : Str) (h : Handler)
      → contains writers (to_upper name) ≡ false
      → find (to_upper name) (init env) ≡ some h
      → Reads t h
  unfolding find
  find-Reads name h w e =
      init-Fair t env early (to_upper (to_upper name)) h e
        (ap (contains writers) (to_upper_twice name) ∙ w)

  dispatch-SameView :
      (req : Value) (db : Db)
      → contains writers (command_name req) ≡ false
      → After (λ (reply, db'). SameView t db db') (dispatch_command env req db)
  unfolding dispatch_command
  dispatch-SameView req db w = elim (List-cases (to_list (items_of req))) [
    | inl e ↦ rw (e, dispatch_command) (λ j. refl)
    | inr (c, args, e) ↦ elim (Bool-cases (is_array (type_of req))) [
      | inr z ↦ rw (e, z, dispatch_command) (λ j. refl)
      | inl a ↦ elim (Option-cases (find (to_upper (text_of c)) (init env))) [
        | inl f ↦ rw (dispatch-unknown env req c args db e a f) (λ j. refl)
        | inr (h, f) ↦ rw (dispatch-found env req c args h db e a f) (
            find-Reads (text_of c) h
              (ap (contains writers) (sym (command_name-eq req c args e a)) ∙ w) f args db)
      ]
    ]
  ]

-- Requests one after the other; `none` if one of them panics.
unfoldable pub run_requests : List (Env × Value) → Db → Option Db
run_requests [] db = some db
run_requests ((env, req) ∷ requests) db =
    dispatch_command env req db >>= λ (v, db'). run_requests requests db'

abbrev pub AllElsewhere : Time → List (Env × Value) → Type 0
AllElsewhere t [] = Unit
AllElsewhere t (r ∷ requests) = Elsewhere t r × AllElsewhere t requests

run_requests-SameView :
    (t : Time) (requests : List (Env × Value)) (db db' : Db)
    → AllElsewhere t requests
    → run_requests requests db ≡ some db'
    → SameView t db db'
unfolding run_requests
run_requests-SameView t [] db db' w h =
    λ j. let same : db ≡ db' = cc in ap (λ d. view t j d.dict) (sym same)
run_requests-SameView t ((env, req) ∷ requests) db db' (w, ws) h =
    elim (Option-cases (dispatch_command env req db)) [
      | inl e ↦ absurd (ground (arith, e, h))
      | inr ((v, m), e) ↦
          let first = rw e at (dispatch-SameView t env w.1 req db w.0) in
          λ j. run_requests-SameView t requests m db' ws (ground (arith, e, h)) j ∙ first j
    ]

-- SET with a key, a value and whatever else, from the epoch on, answers OK. Let any requests follow,
-- at times up to that of a GET and none of them a SET, DEL, EXPIRE or PEXPIREAT, of which none
-- panics: the GET with the same key is answered with the value, unless SET had a positive time to
-- live and it is over, where the reply is the null string. A GET with another key is answered as it
-- would have been before the SET.
pub get-set_later :
    (env later : Env) (set_req get_req key val k : Value) (rest more : List Value)
    (others : List (Env × Value)) (db db' : Db)
    → Asks set_req (codes "SET") (key ∷ val ∷ rest)
    → Asks get_req (codes "GET") (k ∷ more)
    → pos 0 ≤ℤ env.clock 0
    → AllElsewhere (later.clock 0) others
    → run_requests ((env, set_req) ∷ others) db ≡ some db'
    → (reply env set_req db ≡ some (simple (codes "OK")))
      × (reply later get_req db' ≡ (
          if eq_str (text_of key) (text_of k)
          then some (
              if ltb_ℤ (pos 0) (set_ttl rest) && ltb_ℤ (env.clock 0 +ℤ set_ttl rest) (later.clock 0)
              then nil_bulk
              else bulk (text_of val))
          else reply later get_req db))
unfolding run_requests
get-set_later env later set_req get_req key val k rest more others db db' s g epoch w h =
    let (m, e, r) = get-set env later set_req get_req key val k rest more db s g epoch in
    let same =
      run_requests-SameView (later.clock 0) others m db' w (ground (arith, e, h)) (text_of k) in
    (
      ap (Option.map (λ r. r.0)) e,
      reply-get later get_req k more db' g
          ∙ ap (λ o. some (reply_of (Option.map (λ item. item.value) o))) same
          ∙ sym (reply-get later get_req k more m g)
          ∙ r,
    )
