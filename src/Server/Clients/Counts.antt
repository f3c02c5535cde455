-- ===== src/Server/Clients/Counts.antt =====
-- The counters and the buffers of a server that runs.
use valkeydb.Base.{
  After, ℕ, ◌≡◌, refl, inl, inr, sym, subst, Bool, true, Option, none, some, ◌++◌, Str, arith,
  get_elem?, set, Option-cases, Bool-cases, if◌then◌else◌, ◌>>=◌,
}
use valkeydb.Clock.{Time}
use valkeydb.Rdb.{Storage}
use valkeydb.Server.Persist.{take_snapshot, rewrite_aof}
use valkeydb.Server.Clients.{
  begin_save, end_save, rewrite_log, expire_dict, expire_set, Action, accepts, receives, requests,
  ends, enters, delivers, begins_save, ends_save, rewrites, expires_dict, expires_set, enter,
  deliver, act, is_reading, Any, acts, Reach, start, later,
}
use valkeydb.Server.Rounds.{
  System, Conn, Phase, set_conn, reading, to_pubsub, to_monitor, closed, subscribed, watching,
}
use valkeydb.Server.Clients.Sound.{
  is_open, open_count, IsSound, open_count-set, Inv, db-IsSound, accept_conn-Inv,
}
use valkeydb.Server.Clients.Moves.{
  read_request-Inv, read_error-Inv, enter_pubsub-Inv, enter_monitor-Inv, receive_message-Inv,
  receive_line-Inv,
}

receives-Inv :
    (i : ℕ) (c : Conn) (s : System)
    → get_elem? s.conns i ≡ some c
    → (c' : Conn) → c'.phase ≡ c.phase
    → Inv s
    → Inv (set_conn i c' s)
unfolding set_conn
receives-Inv i c s at c' same h =
    let kept : open_count (set s.conns i c') ≡ open_count s.conns =
      ground (arith, open_count-set s.conns i c c' at, same) in
    subst (λ n. IsSound n s.server) (sym kept) h

-- An action of the connection at a place.
at_conn-Inv :
    (i : ℕ) (s : System) (f : Conn → Option System)
    → ((c : Conn) → get_elem? s.conns i ≡ some c → After Inv (f c))
    → After Inv (get_elem? s.conns i >>= f)
at_conn-Inv i s f h = elim (Option-cases (get_elem? s.conns i)) [
  | inl e ↦ rw e tt
  | inr (c, e) ↦ rw e (h c e)
]

is_reading-open : (p : Phase) → is_reading p ≡ true → is_open p ≡ 1
is_reading-open reading e = refl
is_reading-open to_pubsub e = absurd (ground (arith, e))
is_reading-open to_monitor e = absurd (ground (arith, e))
is_reading-open closed e = absurd (ground (arith, e))
is_reading-open (subscribed ch) e = absurd (ground (arith, e))
is_reading-open (watching ch) e = absurd (ground (arith, e))

when_reading-Inv :
    (p : Phase) (o : Option System)
    → (is_open p ≡ 1 → After Inv o)
    → After Inv (if is_reading p then o else none)
when_reading-Inv p o h = elim (Bool-cases (is_reading p)) [
  | inl e ↦ rw e (h (is_reading-open p e))
  | inr e ↦ rw e tt
]

module _ (i : ℕ) (s : System) (h : Inv s) where
  enter-Inv : (c : Conn) → get_elem? s.conns i ≡ some c → After Inv (enter i c s)
  unfolding enter
  enter-Inv c at = phases c.phase refl
    where
      phases : (p : Phase) → c.phase ≡ p → After Inv (enter i c s)
      phases to_pubsub e = rw (e, enter) (enter_pubsub-Inv i c s at (rw e refl) h)
      phases to_monitor e = rw (e, enter) (enter_monitor-Inv i c s at (rw e refl) h)
      phases reading e = rw (e, enter) tt
      phases closed e = rw (e, enter) tt
      phases (subscribed ch) e = rw (e, enter) tt
      phases (watching ch) e = rw (e, enter) tt

  deliver-Inv :
      (sent : Bool) (c : Conn) → get_elem? s.conns i ≡ some c → After Inv (deliver i sent c s)
  unfolding deliver
  deliver-Inv sent c at = phases c.phase refl
    where
      phases : (p : Phase) → c.phase ≡ p → After Inv (deliver i sent c s)
      phases (subscribed ch) e =
          rw (e, deliver) (receive_message-Inv i c s at (rw e refl) ch sent h)
      phases (watching ch) e = rw (e, deliver) (receive_line-Inv i c s at (rw e refl) ch sent h)
      phases to_pubsub e = rw (e, deliver) tt
      phases to_monitor e = rw (e, deliver) tt
      phases reading e = rw (e, deliver) tt
      phases closed e = rw (e, deliver) tt

begin_save-Inv :
    (dict_clock set_clock : ℕ → Time) (k : ℕ) (s : System)
    → Inv s
    → After Inv (begin_save dict_clock set_clock k s)
unfolding begin_save
begin_save-Inv dict_clock set_clock k s h = elim (Option-cases (get_elem? s.server.db.saves k)) [
  | inl e ↦ rw (e, begin_save) tt
  | inr (name, e) ↦ elim (Option-cases (take_snapshot dict_clock set_clock s.server.db)) [
    | inl t ↦ rw (e, t, begin_save) tt
    | inr (snapshot, t) ↦ rw (e, t, begin_save) (db-IsSound _ s.server _ h)
  ]
]

end_save-Inv : (storage : Storage) (k : ℕ) (s : System) → Inv s → After Inv (end_save storage k s)
unfolding end_save
end_save-Inv storage k s h = elim (Option-cases (get_elem? s.running k)) [
  | inl e ↦ rw (e, end_save) tt
  | inr (job, e) ↦ rw (e, end_save) h
]

rewrite_log-Inv :
    (dict_clock set_clock : ℕ → Time) (s : System)
    → Inv s
    → After Inv (rewrite_log dict_clock set_clock s)
unfolding rewrite_log
rewrite_log-Inv dict_clock set_clock s h =
    elim (Option-cases (rewrite_aof dict_clock set_clock s.server.db)) [
      | inl e ↦ rw (e, rewrite_log) tt
      | inr (db, e) ↦ rw (e, rewrite_log) (db-IsSound _ s.server db h)
    ]

-- One action, by any connection or goroutine.
act-Inv : (auth : Str) (a : Action) (s : System) → Inv s → After Inv (act auth a s)
unfolding act expire_dict expire_set
act-Inv auth accepts s h = accept_conn-Inv auth s h
act-Inv auth (receives i bytes) s h =
    at_conn-Inv i s _ λ c at. receives-Inv i c s at (record c { input = c.input ++ bytes }) refl h
act-Inv auth (requests env i sent) s h = at_conn-Inv i s _ λ c at.
    when_reading-Inv c.phase _ λ o. read_request-Inv i c s at o (record env { auth = auth }) sent h
act-Inv auth (ends i) s h =
    at_conn-Inv i s _ λ c at. when_reading-Inv c.phase _ λ o. read_error-Inv i c s at o h
act-Inv auth (enters i) s h = at_conn-Inv i s _ (enter-Inv i s h)
act-Inv auth (delivers i sent) s h = at_conn-Inv i s _ (deliver-Inv i s h sent)
act-Inv auth (begins_save dict_clock set_clock k) s h = begin_save-Inv dict_clock set_clock k s h
act-Inv auth (ends_save storage k) s h = end_save-Inv storage k s h
act-Inv auth (rewrites dict_clock set_clock) s h = rewrite_log-Inv dict_clock set_clock s h
act-Inv auth (expires_dict config r) s h = db-IsSound _ s.server _ h
act-Inv auth (expires_set config r) s h = db-IsSound _ s.server _ h

-- From a system where it holds, whatever its connections and goroutines do, in any order: as many
-- connections are open as the counter of INFO says, the counters of connections and commands are in
-- uint64, and no buffer of a client in monitor mode is over its 128 lines.
pub Reach-Inv : (auth : Str) (s t : System) → Inv s → Reach auth Any s t → Inv t
Reach-Inv auth s t h start = h
Reach-Inv auth s t h (later {t = u} r (acts a p e)) =
    subst (After Inv) e (act-Inv auth a u (Reach-Inv auth s u h r))
