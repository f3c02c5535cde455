-- ===== src/Server/Clients/Upkeep.antt =====
-- Rounds of a connection and well-formed stores.
use valkeydb.Base.{
  ℕ, zero, suc, ◌<◌, ◌≡◌, refl, ◌∙◌, ap, Bool, true, false, some, List, [], ◌∷◌, arith, Str, length,
  get_elem?, set, ◌==◌, ==_iff, Option-cases, List-cases, Bool-cases, inl, inr, After,
  get_elem?-set_self, get_elem?-set_ne,
}
use valkeydb.Pubsub.{Pubsub, Queue, subscribers}
use valkeydb.Pubsub.Publish.{AreOpen}
use valkeydb.Pubsub.Sound.{IsSound}
use valkeydb.Command.Wellformed.{IsWell, with_pubsub}
use valkeydb.Resp.{Value, Decoded, ok, failed, panicked, out_of_fuel, decode}
use valkeydb.Command.{Env}
use valkeydb.Server.{handle_request, monitor_subscribe, monitor_unsubscribe}
use valkeydb.Server.Stores.{handle_request-IsWell}
use valkeydb.Server.Clients.{enter, deliver}
use valkeydb.Server.Rounds.{
  System, Conn, Phase, set_conn, close_conn, write_response, answer, read_request, read_error,
  enter_pubsub, enter_monitor, receive_message, take_line, receive_line, env_at, reading, closed,
  to_pubsub, to_monitor, subscribed, watching,
}

-- A receive from a queue leaves it open or closed.
pub index-lt :
    (queues : List Queue) (ch : ℕ) (q : Queue) → get_elem? queues ch ≡ some q → ch < length queues
index-lt [] ch q e = absurd (ground (arith, e))
index-lt (x ∷ queues) zero q e = omega arith
index-lt (x ∷ queues) (suc ch) q e = omega (arith, index-lt queues ch q e)

pub AreOpen-receive :
    (queues : List Queue) (ch : ℕ) (q q' : Queue) (subs : List ℕ)
    → get_elem? queues ch ≡ some q
    → q'.closed ≡ q.closed
    → AreOpen queues subs
    → AreOpen (set queues ch q') subs
unfolding AreOpen
AreOpen-receive queues ch q q' [] e same o = tt
AreOpen-receive queues ch q q' (sub ∷ subs) e same ((x, f, c), fresh, o) = (
  elim (Bool-cases (ch == sub)) [
    | inl here ↦
        let equal : ch ≡ sub = (==_iff ch sub).0 here in
        let found : q ≡ x = ground (arith, e, f, equal) in
        (
          q',
          rw (← equal) (get_elem?-set_self queues ch q' (index-lt queues ch q e)),
          same ∙ ap (λ y. y.closed) found ∙ c,
        )
    | inr other ↦ (x, get_elem?-set_ne queues ch sub q' (ground (arith, other)) ∙ f, c)
  ],
  fresh,
  AreOpen-receive queues ch q q' subs e same o,
)

pub receive-IsSound :
    (p : Pubsub) (ch : ℕ) (q q' : Queue)
    → get_elem? p.queues ch ≡ some q
    → q'.closed ≡ q.closed
    → IsSound p
    → IsSound (record p { queues = set p.queues ch q' })
unfolding subscribers
receive-IsSound p ch q q' e same s = record {
  opened = λ c. AreOpen-receive p.queues ch q q' (subscribers c p) e same (s.opened c);
  apart = s.apart;
}

abbrev pub Well : System → Type 0
Well s = IsWell s.server.db

pub write_response-Well :
    (i : ℕ) (c : Conn) (v : Value) (sent : Bool) (s : System)
    → Well s
    → Well (write_response i c v sent s)
unfolding write_response set_conn close_conn
write_response-Well i c v true s w = w
write_response-Well i c v false s w = w

pub answer-Well :
    (env : Env) (i : ℕ) (c : Conn) (sent : Bool) (req : Value) (rest : Str) (s : System)
    → Well s
    → After Well (answer env i c sent req rest s)
unfolding answer
answer-Well env i c sent req rest s w =
    let kept = handle_request-IsWell (env_at env s) c.authed req s.server w in
    elim (Option-cases (handle_request (env_at env s) c.authed req s.server)) [
      | inl e ↦ rw (e, answer) tt
      | inr (r, e) ↦
          rw (e, answer)
            (write_response-Well i _ r.reply sent (record s { server = r.server }) (rw e at kept))
    ]

pub read_request-Well :
    (env : Env) (i : ℕ) (c : Conn) (sent : Bool) (s : System)
    → Well s
    → After Well (read_request env i c sent s)
unfolding read_request
read_request-Well env i c sent s w = inputs (decode c.input) refl
  where
    inputs :
        (d : Decoded (Value × Str)) → decode c.input ≡ d → After Well (read_request env i c sent s)
    inputs (ok (req, rest)) e = rw (e, read_request) (answer-Well env i c sent req rest s w)
    inputs failed e = rw (e, read_request) tt
    inputs panicked e = rw (e, read_request) tt
    inputs out_of_fuel e = rw (e, read_request) tt

pub read_error-Well : (i : ℕ) (c : Conn) (s : System) → Well s → After Well (read_error i c s)
unfolding read_error close_conn
read_error-Well i c s w = inputs (decode c.input) refl
  where
    inputs : (d : Decoded (Value × Str)) → decode c.input ≡ d → After Well (read_error i c s)
    inputs (ok (req, rest)) e = rw (e, read_error) tt
    inputs failed e = rw (e, read_error) w
    inputs panicked e = rw (e, read_error) tt
    inputs out_of_fuel e = rw (e, read_error) tt

pub enter-Well : (i : ℕ) (c : Conn) (s : System) → Well s → After Well (enter i c s)
unfolding enter enter_pubsub enter_monitor monitor_subscribe set_conn close_conn
enter-Well i c s w = phases c.phase refl
  where
    phases : (p : Phase) → c.phase ≡ p → After Well (enter i c s)
    phases to_pubsub e = elim (Option-cases s.server.db.sub_chan) [
      | inl f ↦ rw (e, f, enter, enter_pubsub) w
      | inr (ch, f) ↦ rw (e, f, enter, enter_pubsub) w
    ]
    phases to_monitor e = rw (e, enter) w
    phases reading e = rw (e, enter) tt
    phases closed e = rw (e, enter) tt
    phases (subscribed ch) e = rw (e, enter) tt
    phases (watching ch) e = rw (e, enter) tt

pub receive_message-Well :
    (i : ℕ) (c : Conn) (ch : ℕ) (sent : Bool) (s : System)
    → Well s
    → After Well (receive_message i c ch sent s)
unfolding receive_message close_conn
receive_message-Well i c ch sent s w =
    elim (Option-cases (get_elem? s.server.db.pubsub.queues ch)) [
      | inl e ↦ rw (e, receive_message) tt
      | inr (q, e) ↦ elim (List-cases q.buffer) [
        | inl b ↦ elim (Bool-cases q.closed) [
          | inl x ↦ rw (e, b, x, receive_message) w
          | inr x ↦ rw (e, b, x, receive_message) tt
        ]
        | inr (msg, rest, b) ↦
            rw (e, b, receive_message)
              (write_response-Well i c msg sent _ (
                with_pubsub w _ (
                  receive-IsSound s.server.db.pubsub ch q (record q { buffer = rest }) e refl
                    w.pubsub)))
      ]
    ]

pub receive_line-Well :
    (i : ℕ) (c : Conn) (ch : ℕ) (sent : Bool) (s : System)
    → Well s
    → After Well (receive_line i c ch sent s)
unfolding receive_line monitor_unsubscribe write_response set_conn close_conn
receive_line-Well i c ch true s w = elim (Option-cases (take_line ch s.server.monitors)) [
  | inl e ↦ rw (e, receive_line) tt
  | inr (r, e) ↦ rw (e, receive_line) w
]
receive_line-Well i c ch false s w = elim (Option-cases (take_line ch s.server.monitors)) [
  | inl e ↦ rw (e, receive_line) tt
  | inr (r, e) ↦ rw (e, receive_line) w
]

pub deliver-Well :
    (i : ℕ) (sent : Bool) (c : Conn) (s : System) → Well s → After Well (deliver i sent c s)
unfolding deliver
deliver-Well i sent c s w = phases c.phase refl
  where
    phases : (p : Phase) → c.phase ≡ p → After Well (deliver i sent c s)
    phases (subscribed ch) e = rw (e, deliver) (receive_message-Well i c ch sent s w)
    phases (watching ch) e = rw (e, deliver) (receive_line-Well i c ch sent s w)
    phases to_pubsub e = rw (e, deliver) tt
    phases to_monitor e = rw (e, deliver) tt
    phases reading e = rw (e, deliver) tt
    phases closed e = rw (e, deliver) tt
