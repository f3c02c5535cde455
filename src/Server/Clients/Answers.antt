-- ===== src/Server/Clients/Answers.antt =====
-- What comes of the requests that a client has sent.
use mathlib.Core.Path.{subst}
use valkeydb.Base.{
  ℕ, zero, suc, ◌≡◌, refl, ◌∙◌, ap, sym, Bool, true, some, List, [], ◌∷◌, ◌++◌, Str, arith,
  append_assoc, append-nil, Option, none, ◌>>=◌, Option-cases, inl, inr, ◌⊎◌, get_elem?, set,
}
use valkeydb.Resp.{Value, ok, encode, decode}
use valkeydb.Resp.RoundTrip.{decode-encode}
use valkeydb.Aof.{encode_entries}
use valkeydb.Aof.Load.{AllWire}
use valkeydb.Command.{Env}
use valkeydb.Server.{Server, Served, Mode, command_mode, pubsub_mode, monitor_mode, handle_request}
use valkeydb.Server.Clients.{requests, act, Any, acts, Reach, start, later}
use valkeydb.Server.Rounds.{
  System, Conn, set_conn, write_response, answer, read_request, env_at, reading,
}

-- A system with another server, and another connection at a place.
abbrev pub with_conn : ℕ → Conn → Server → System → System
with_conn i c server s = record s { server = server; conns = set s.conns i c }

-- The requests alone, of requests with what each of them takes from elsewhere.
abbrev pub sent : List (Env × Value) → List Value
sent [] = []
sent ((env, req) ∷ reqs) = req ∷ sent reqs

-- What a request takes from elsewhere: the password is the configuration's, and INFO reads the
-- counters and the flag of BGSAVE as they are.
abbrev pub env_with : Str → Env → ℕ → Server → Env
env_with auth env saving server = record env {
  auth = auth;
  runtime = record env.runtime { stats = server.stats; bgsave_in_prog = saving };
}

-- What `handleConn` answers to the requests of one connection, one after the other: the replies,
-- whether the client has authenticated then, and the server. `none` where one of them panics or
-- leaves the loop.
unfoldable pub answer_all :
    Str → ℕ → Bool → List (Env × Value) → Server → Option (List Value × Bool × Server)
answer_all auth saving authed [] server = some ([], authed, server)
answer_all auth saving authed ((env, req) ∷ reqs) server =
    handle_request (env_with auth env saving server) authed req server >>= λ r. elim r.mode [
      | command_mode ↦
          answer_all auth saving r.authed reqs r.server >>= λ (replies, authed', server').
          some (r.reply ∷ replies, authed', server')
      | _ ↦ none
    ]

set-set : (conns : List Conn) (i : ℕ) (c c' : Conn) → set (set conns i c) i c' ≡ set conns i c'
set-set [] i c c' = refl
set-set (x ∷ conns) zero c c' = refl
set-set (x ∷ conns) (suc i) c c' = ap (λ r. x ∷ r) (set-set conns i c c')

set-get_elem? :
    (conns : List Conn) (i : ℕ) (c : Conn) → get_elem? conns i ≡ some c → set conns i c ≡ conns
set-get_elem? [] i c e = refl
set-get_elem? (x ∷ conns) zero c e =
    let same : x ≡ c = ground (arith, e) in ap (λ y. y ∷ conns) (sym same)
set-get_elem? (x ∷ conns) (suc i) c e = ap (λ r. x ∷ r) (set-get_elem? conns i c e)

get_elem?-set_of :
    (conns : List Conn) (i : ℕ) (c c' : Conn)
    → get_elem? conns i ≡ some c
    → get_elem? (set conns i c') i ≡ some c'
get_elem?-set_of [] i c c' e = absurd (ground (arith, e))
get_elem?-set_of (x ∷ conns) zero c c' e = refl
get_elem?-set_of (x ∷ conns) (suc i) c c' e = get_elem?-set_of conns i c c' e

-- One request, read and answered.
pub act-request :
    (auth : Str) (env : Env) (i : ℕ) (s : System) (c : Conn) (req : Value) (rest : Str) (r : Served)
    → get_elem? s.conns i ≡ some c
    → c.phase ≡ reading
    → decode c.input ≡ ok (req, rest)
    → handle_request (env_at (record env { auth = auth }) s) c.authed req s.server ≡ some r
    → r.mode ≡ command_mode
    → act auth (requests env i true) s
      ≡ some (record s {
        server = r.server;
        conns = set s.conns i (record {
          authed = r.authed;
          phase = reading;
          input = rest;
          output = c.output ++ encode r.reply;
        });
      })
unfolding act read_request answer write_response set_conn
act-request auth env i s c req rest r at p d h m = rw (at, p, d, read_request, h, answer, m) refl

abbrev pub grown : Conn → Str → List Value → Bool → Conn
grown c rest replies authed = record {
  authed = authed;
  phase = reading;
  input = rest;
  output = c.output ++ encode_entries replies;
}

grown-nil :
    (c : Conn) (rest : Str) → c.phase ≡ reading → c.input ≡ rest → c ≡ grown c rest [] c.authed
unfolding encode_entries
grown-nil c rest p e i = record {
  authed = c.authed;
  phase = p i;
  input = e i;
  output = sym (append-nil c.output) i;
}

Mode-cases : (m : Mode) → (m ≡ command_mode) ⊎ ((m ≡ pubsub_mode) ⊎ (m ≡ monitor_mode))
Mode-cases command_mode = inl refl
Mode-cases pubsub_mode = inr (inl refl)
Mode-cases monitor_mode = inr (inr refl)

-- The first of several requests, and the ones behind it.
answer_all-cons :
    (auth : Str) (saving : ℕ) (authed : Bool) (env : Env) (req : Value) (reqs : List (Env × Value))
    (server : Server) (replies : List Value) (authed' : Bool) (server' : Server)
    → answer_all auth saving authed ((env, req) ∷ reqs) server ≡ some (replies, authed', server')
    → (r : Served) × (rest : List Value) × (handle_request
          (env_with auth env saving server)
          authed
          req
          server
        ≡ some r)
      × (r.mode ≡ command_mode)
      × (answer_all auth saving r.authed reqs r.server ≡ some (rest, authed', server'))
      × (replies ≡ r.reply ∷ rest)
unfolding answer_all
answer_all-cons auth saving authed env req reqs server replies authed' server' h =
    elim (Option-cases (handle_request (env_with auth env saving server) authed req server)) [
      | inl e ↦ absurd (ground (arith, e, h))
      | inr (r, e) ↦ elim (Mode-cases r.mode) [
        | inr m ↦ absurd (ground (arith, e, m, h))
        | inl m ↦ elim (Option-cases (answer_all auth saving r.authed reqs r.server)) [
          | inl f ↦ absurd (ground (arith, e, m, f, h))
          | inr ((rest, a, left), f) ↦
              let same = rw (e, answer_all, m, f) at h in
              let p : a ≡ authed' = cc in
              let q : left ≡ server' = cc in
              let t : replies ≡ r.reply ∷ rest = cc in
              (r, rest, e, m, f ∙ (λ i. some (rest, p i, q i)), t)
        ]
      ]
    ]

drain :
    (auth : Str) (i : ℕ) (vs : List (Env × Value)) (rest : Str) (s0 s : System) (c : Conn)
    (replies : List Value) (authed : Bool) (server : Server)
    → Reach auth Any s0 s
    → get_elem? s.conns i ≡ some c
    → c.phase ≡ reading
    → c.input ≡ encode_entries (sent vs) ++ rest
    → AllWire (sent vs)
    → answer_all auth s.saving c.authed vs s.server ≡ some (replies, authed, server)
    → Reach auth Any s0 (with_conn i (grown c rest replies authed) server s)
unfolding encode_entries answer_all env_at
drain auth i [] rest s0 s c replies authed server r at p e w h =
    let none_sent : [] ≡ replies = cc in
    let same_authed : c.authed ≡ authed = cc in
    let same_server : s.server ≡ server = cc in
    let still : s ≡ with_conn i (grown c rest [] c.authed) s.server s =
      ap (λ conns. record s { conns = conns }) (sym (set-get_elem? s.conns i c at))
      ∙ ap (λ x. with_conn i x s.server s) (grown-nil c rest p e) in
    rw (← none_sent, ← same_authed, ← same_server) (subst (Reach auth Any s0) still r)
drain auth i ((env, v) ∷ vs) rest s0 s c replies authed server r at p e w h =
    let (served, replies', h', m, a, split) =
      answer_all-cons auth s.saving c.authed env v vs s.server replies authed server h in
    let next : Conn = record {
      authed = served.authed;
      phase = reading;
      input = encode_entries (sent vs) ++ rest;
      output = c.output ++ encode served.reply;
    } in
    let read : decode c.input ≡ ok (v, encode_entries (sent vs) ++ rest) =
      rw (e, append_assoc (encode v) (encode_entries (sent vs)) rest)
        (decode-encode v (encode_entries (sent vs) ++ rest) w.0) in
    let step =
      act-request auth env i s c v (encode_entries (sent vs) ++ rest) served at p read h' m in
    let done =
      drain auth i vs rest s0 (with_conn i next served.server s) next replies' authed server
        (later r (acts (requests env i true) tt step)) (get_elem?-set_of s.conns i c next at) refl
        refl w.1 a in
    let shape : with_conn i (grown next rest replies' authed) server
          (with_conn i next served.server s)
        ≡ with_conn i (grown c rest replies authed) server s =
      ap (λ conns. record s { server = server; conns = conns })
        (set-set s.conns i next (grown next rest replies' authed))
      ∙ ap
          (λ o.
            with_conn i (record { authed = authed; phase = reading; input = rest; output = o })
              server s)
          (append_assoc c.output (encode served.reply) (encode_entries replies'))
      ∙ ap (λ out. with_conn i (grown c rest out authed) server s) (sym split) in
    subst (Reach auth Any s0) shape done

-- A connection in the loop of requests, whose client has sent values that are fit for the wire:
-- where the server, as it stands, answers them one after the other, each at its own readings of the
-- clock, without a panic and without leaving the loop, a run of the server reads them all, writes
-- the encoding of each of these replies, in order, behind what the connection has written, and
-- leaves the server that the answers leave; what the client has sent behind them is next to be
-- read.
pub requests-Reach :
    (auth : Str) (i : ℕ) (vs : List (Env × Value)) (rest : Str) (s : System) (c : Conn)
    (replies : List Value) (authed : Bool) (server : Server)
    → get_elem? s.conns i ≡ some c
    → c.phase ≡ reading
    → c.input ≡ encode_entries (sent vs) ++ rest
    → AllWire (sent vs)
    → answer_all auth s.saving c.authed vs s.server ≡ some (replies, authed, server)
    → Reach auth Any s (with_conn i (grown c rest replies authed) server s)
requests-Reach auth i vs rest s c replies authed server at p e w h =
    drain auth i vs rest s s c replies authed server start at p e w h
