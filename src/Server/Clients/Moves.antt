-- ===== src/Server/Clients/Moves.antt =====
-- What a connection does, and the counters and the buffers.
use valkeydb.Base.{
  After, ℕ, ◌≡◌, refl, inl, inr, sym, subst, Bool, true, false, none, some, Str, arith, get_elem?,
  set, Option-cases, List-cases, Bool-cases, if◌then◌else◌,
}
use valkeydb.Resp.{Value, ok, failed, panicked, out_of_fuel, decode}
use valkeydb.Command.{Env}
use valkeydb.Command.System.{dec_connections}
use valkeydb.Server.{Server, handle_request, monitor_subscribe, monitor_unsubscribe}
use valkeydb.Server.Rounds.{
  System, Conn, set_conn, close_conn, write_response, next_phase, answer, read_request, read_error,
  enter_pubsub, enter_monitor, receive_message, with_queues, take_line, receive_line, env_at,
  closed, subscribed, watching,
}
use valkeydb.Server.Clients.Buffers.{remove_monitor-AreShort, AreShort-append, take_line-AreShort}
use valkeydb.Server.Clients.Sound.{
  is_open, open_count, IsSound, open_count-set, next_phase-open, Inv, db-IsSound,
  handle_request-IsSound,
}

-- In a system with a connection that is open, at its place in the list.
module _ (i : ℕ) (c : Conn) (s : System) (at : get_elem? s.conns i ≡ some c)
    (o : is_open c.phase ≡ 1) where
  pub set_conn-Inv :
      (c' : Conn) (server : Server)
      → is_open c'.phase ≡ 1
      → IsSound (open_count s.conns) server
      → Inv (set_conn i c' (record s { server = server }))
  unfolding set_conn
  set_conn-Inv c' server o' h =
      let same : open_count (set s.conns i c') ≡ open_count s.conns =
        omega (arith, open_count-set s.conns i c c' at, o, o') in
      subst (λ n. IsSound n server) (sym same) h

  pub close_conn-Inv :
      (c' : Conn) (server : Server)
      → IsSound (open_count s.conns) server
      → Inv (close_conn i c' (record s { server = server }))
  unfolding close_conn dec_connections
  close_conn-Inv c' server h = record {
    counted =
        omega (arith, open_count-set s.conns i c (record c' { phase = closed }) at, o, h.counted);
    cmds = h.cmds;
    conns = h.conns;
    short = h.short;
  }

  pub write_response-Inv :
      (c' : Conn) (v : Value) (sent : Bool) (server : Server)
      → is_open c'.phase ≡ 1
      → IsSound (open_count s.conns) server
      → Inv (write_response i c' v sent (record s { server = server }))
  unfolding write_response
  write_response-Inv c' v true server o' h = set_conn-Inv _ server o' h
  write_response-Inv c' v false server o' h = close_conn-Inv _ server h

  pub answer-Inv :
      (env : Env) (sent : Bool) (req : Value) (rest : Str)
      → Inv s
      → After Inv (answer env i c sent req rest s)
  unfolding answer
  answer-Inv env sent req rest h =
      elim (Option-cases (handle_request (env_at env s) c.authed req s.server)) [
        | inl f ↦ rw (f, answer) tt
        | inr (r, f) ↦
            rw (f, answer)
              (write_response-Inv
                (record c { authed = r.authed; phase = next_phase r.mode; input = rest }) r.reply
                sent r.server (next_phase-open r.mode)
                (handle_request-IsSound (open_count s.conns) (env_at env s) c.authed req s.server r
                  f h))
      ]

  pub read_request-Inv : (env : Env) (sent : Bool) → Inv s → After Inv (read_request env i c sent s)
  unfolding read_request
  read_request-Inv env sent h =
      elim (decode c.input)
        as (λ d. After Inv (elim d [
          | ok (req, rest) ↦ answer env i c sent req rest s
          | failed ↦ none
          | panicked ↦ none
          | out_of_fuel ↦ none
        ])) [
          | ok (req, rest) ↦ answer-Inv env sent req rest h
          | failed ↦ tt
          | panicked ↦ tt
          | out_of_fuel ↦ tt
        ]

  pub read_error-Inv : Inv s → After Inv (read_error i c s)
  unfolding read_error
  read_error-Inv h =
      elim (decode c.input)
        as (λ d. After Inv (elim d [
          | ok (req, rest) ↦ none
          | failed ↦ some (close_conn i c s)
          | panicked ↦ none
          | out_of_fuel ↦ none
        ])) [
          | ok (req, rest) ↦ tt
          | failed ↦ close_conn-Inv c s.server h
          | panicked ↦ tt
          | out_of_fuel ↦ tt
        ]

  pub enter_pubsub-Inv : Inv s → Inv (enter_pubsub i c s)
  unfolding enter_pubsub
  enter_pubsub-Inv h = elim (Option-cases s.server.db.sub_chan) [
    | inl e ↦ rw (e, enter_pubsub) (close_conn-Inv c s.server h)
    | inr (ch, e) ↦
        rw (e, enter_pubsub) (set_conn-Inv (record c { phase = subscribed ch }) s.server refl h)
  ]

  pub enter_monitor-Inv : Inv s → Inv (enter_monitor i c s)
  unfolding enter_monitor monitor_subscribe
  enter_monitor-Inv h =
      set_conn-Inv (record c { phase = watching s.server.next_monitor }) _ refl
        (record {
          counted = h.counted;
          cmds = h.cmds;
          conns = h.conns;
          short = AreShort-append s.server.monitors s.server.next_monitor h.short;
        })

  pub receive_message-Inv :
      (ch : ℕ) (sent : Bool) → Inv s → After Inv (receive_message i c ch sent s)
  unfolding receive_message
  receive_message-Inv ch sent h = elim (Option-cases (get_elem? s.server.db.pubsub.queues ch)) [
    | inl e ↦ rw (e, receive_message) tt
    | inr (q, e) ↦ elim (List-cases q.buffer) [
      | inl b ↦ elim (Bool-cases q.closed) [
        | inl x ↦ rw (e, b, x, receive_message) (close_conn-Inv c s.server h)
        | inr x ↦ rw (e, b, x, receive_message) tt
      ]
      | inr (msg, rest, b) ↦
          rw (e, b, receive_message)
            (write_response-Inv c msg sent
              (with_queues (set s.server.db.pubsub.queues ch (record q { buffer = rest })) s.server)
              o (db-IsSound _ s.server _ h))
    ]
  ]

  pub receive_line-Inv : (ch : ℕ) (sent : Bool) → Inv s → After Inv (receive_line i c ch sent s)
  unfolding receive_line monitor_unsubscribe
  receive_line-Inv ch sent h = elim (Option-cases (take_line ch s.server.monitors)) [
    | inl e ↦ rw (e, receive_line) tt
    | inr ((line, left), e) ↦
        let left_short = take_line-AreShort ch s.server.monitors line left h.short e in
        let server = record s.server { monitors = left } in
        rw (e, receive_line)
          (write_response-Inv c line sent (if sent then server else monitor_unsubscribe ch server) o
            (elim sent
              as (λ b.
                IsSound (open_count s.conns)
                  (if b then server else monitor_unsubscribe ch server)) [
                    | true ↦ record {
                      counted = h.counted;
                      cmds = h.cmds;
                      conns = h.conns;
                      short = left_short;
                    }
                    | false ↦ record {
                      counted = h.counted;
                      cmds = h.cmds;
                      conns = h.conns;
                      short = remove_monitor-AreShort ch left left_short;
                    }
                  ]))
  ]
