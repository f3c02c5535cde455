-- ===== src/Server/Clients/Guests.antt =====
-- Connections of clients that have not authenticated, side by side.
use valkeydb.Base.{
  After, ℕ, ◌≡◌, refl, ◌≢◌, subst, false, Option, none, some, [], ◌++◌, Str, arith, eq_str,
  eq_str_iff, get_elem?, Option-cases, Bool-cases, inl, inr, if◌then◌else◌, ◌>>=◌,
}
use valkeydb.Clock.{Time}
use valkeydb.Rdb.{Storage}
use valkeydb.Command.{Db}
use valkeydb.Server.Persist.{take_snapshot, rewrite_aof}
use valkeydb.Server.Clients.{
  begin_save, end_save, rewrite_log, expire_dict, expire_set, Action, accepts, receives, requests,
  ends, enters, delivers, begins_save, ends_save, rewrites, expires_dict, expires_set, act,
  is_reading, acts, Reach, start, later,
}
use valkeydb.Server.Rounds.{System, Conn, Phase, accept_conn, set_conn}
use valkeydb.Server.Clients.Barred.{
  IsOutside, AllOutside, SameStores, Outside, Guesses, AllOutside-get, AllOutside-set,
  AllOutside-append, read_request-Outside, read_error-Outside, enter-Outside, deliver-Outside,
}

-- An action of the connection at a place.
at_conn-Outside :
    (old : Db) (i : ℕ) (s : System) (f : Conn → Option System)
    → Outside old s
    → ((c : Conn) → get_elem? s.conns i ≡ some c → IsOutside c → After (Outside old) (f c))
    → After (Outside old) (get_elem? s.conns i >>= f)
at_conn-Outside old i s f h g = elim (Option-cases (get_elem? s.conns i)) [
  | inl e ↦ rw e tt
  | inr (c, e) ↦ rw e (g c e (AllOutside-get s.conns i c h.0 e))
]

when_reading-Outside :
    (old : Db) (p : Phase) (o : Option System)
    → After (Outside old) o
    → After (Outside old) (if is_reading p then o else none)
when_reading-Outside old p o h = elim (Bool-cases (is_reading p)) [
  | inl e ↦ rw e h
  | inr e ↦ rw e tt
]

begin_save-Outside :
    (old : Db) (dict_clock set_clock : ℕ → Time) (k : ℕ) (s : System)
    → Outside old s
    → After (Outside old) (begin_save dict_clock set_clock k s)
unfolding begin_save
begin_save-Outside old dict_clock set_clock k s h =
    elim (Option-cases (get_elem? s.server.db.saves k)) [
      | inl e ↦ rw (e, begin_save) tt
      | inr (name, e) ↦ elim (Option-cases (take_snapshot dict_clock set_clock s.server.db)) [
        | inl t ↦ rw (e, t, begin_save) tt
        | inr (snapshot, t) ↦ rw (e, t, begin_save) h
      ]
    ]

end_save-Outside :
    (old : Db) (storage : Storage) (k : ℕ) (s : System)
    → Outside old s
    → After (Outside old) (end_save storage k s)
unfolding end_save
end_save-Outside old storage k s h = elim (Option-cases (get_elem? s.running k)) [
  | inl e ↦ rw (e, end_save) tt
  | inr (job, e) ↦ rw (e, end_save) h
]

-- A rewrite of the log leaves the stores alone.
rewrite_log-Outside :
    (old : Db) (dict_clock set_clock : ℕ → Time) (s : System)
    → Outside old s
    → After (Outside old) (rewrite_log dict_clock set_clock s)
unfolding rewrite_log rewrite_aof
rewrite_log-Outside old dict_clock set_clock s h =
    elim (Option-cases (take_snapshot dict_clock set_clock s.server.db)) [
      | inl e ↦ rw (e, rewrite_log) tt
      | inr (snapshot, e) ↦ elim (Option-cases s.server.db.aof) [
        | inl a ↦ rw (e, a, rewrite_log) h
        | inr (x, a) ↦ rw (e, a, rewrite_log) h
      ]
    ]

act-Outside :
    (auth : Str) (a : Action) (old : Db) (s : System)
    → auth ≢ []
    → Guesses auth a s
    → Outside old s
    → After (Outside old) (act auth a s)
unfolding act accept_conn set_conn expire_dict expire_set
act-Outside auth accepts old s p g h =
    let shut : eq_str auth [] ≡ false = ground (arith, eq_str_iff auth [], p) in
    (AllOutside-append s.conns _ h.0 (shut, refl), h.1)
act-Outside auth (receives i bytes) old s p g h =
    at_conn-Outside old i s _ h
      λ c at o. (AllOutside-set s.conns i (record c { input = c.input ++ bytes }) h.0 o, h.1)
act-Outside auth (requests env i sent) old s p g h = at_conn-Outside old i s _ h λ c at o.
    when_reading-Outside old c.phase _ (
      read_request-Outside old (record env { auth = auth }) i c sent s o
        (λ req rest e. g c req rest at e) h)
act-Outside auth (ends i) old s p g h =
    at_conn-Outside old i s _ h
      λ c at o. when_reading-Outside old c.phase _ (read_error-Outside old i c s o h)
act-Outside auth (enters i) old s p g h =
    at_conn-Outside old i s _ h λ c at o. enter-Outside old i c s o
act-Outside auth (delivers i sent) old s p g h =
    at_conn-Outside old i s _ h λ c at o. deliver-Outside old i sent c s o
act-Outside auth (begins_save dict_clock set_clock k) old s p g h =
    begin_save-Outside old dict_clock set_clock k s h
act-Outside auth (ends_save storage k) old s p g h = end_save-Outside old storage k s h
act-Outside auth (rewrites dict_clock set_clock) old s p g h =
    rewrite_log-Outside old dict_clock set_clock s h
act-Outside auth (expires_dict config r) old s p g h = h
act-Outside auth (expires_set config r) old s p g h = h

-- Where the configuration has a password and no client has authenticated: while the clients send
-- only requests other than AUTH, and AUTHs with arguments that are refused, no client gets in,
-- whatever the connections and the goroutines do, in any order: none is authenticated or past the
-- loop of requests, and the lists, the hashes and the channels are as they were.
pub Reach-Outside :
    (auth : Str) (s t : System)
    → auth ≢ []
    → AllOutside s.conns
    → Reach auth (Guesses auth) s t
    → AllOutside t.conns × SameStores s.server.db t.server.db
Reach-Outside auth s t p h start = (h, (refl, refl, refl))
Reach-Outside auth s t p h (later {t = u} r (acts a g e)) =
    subst (After (Outside s.server.db)) e
      (act-Outside auth a s.server.db u p g (Reach-Outside auth s u p h r))
