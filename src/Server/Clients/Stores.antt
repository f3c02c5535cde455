-- ===== src/Server/Clients/Stores.antt =====
-- The stores of a server that runs stay well-formed.
use valkeydb.Base.{
  ℕ, subst, Option, none, Str, get_elem?, Option-cases, Bool-cases, inl, inr, After, if◌then◌else◌,
  ◌>>=◌,
}
use valkeydb.Base.Map.{IsMap, delete-IsMap}
use valkeydb.Clock.{Time}
use valkeydb.Command.Wellformed.{AreSets, with_dict, with_set}
use valkeydb.Command.WellformedSets.{delete-AreSets}
use valkeydb.Rdb.{Storage}
use valkeydb.Server.Persist.{take_snapshot, rewrite_aof}
use valkeydb.Server.Clients.Expiry.{dict_active_expire-keeps, set_active_expire-keeps}
use valkeydb.Server.Clients.{
  begin_save, end_save, rewrite_log, expire_dict, expire_set, Action, accepts, receives, requests,
  ends, enters, delivers, begins_save, ends_save, rewrites, expires_dict, expires_set, act,
  is_reading, Any, acts, Reach, start, later,
}
use valkeydb.Server.Rounds.{System, Conn, Phase, accept_conn, set_conn}
use valkeydb.Server.Clients.Upkeep.{
  Well, read_request-Well, read_error-Well, enter-Well, deliver-Well,
}

at_conn-Well :
    (i : ℕ) (s : System) (f : Conn → Option System)
    → ((c : Conn) → After Well (f c))
    → After Well (get_elem? s.conns i >>= f)
at_conn-Well i s f h = elim (Option-cases (get_elem? s.conns i)) [
  | inl e ↦ rw e tt
  | inr (c, e) ↦ rw e (h c)
]

when_reading-Well :
    (p : Phase) (o : Option System) → After Well o → After Well (if is_reading p then o else none)
when_reading-Well p o h = elim (Bool-cases (is_reading p)) [ inl e ↦ rw e h | inr e ↦ rw e tt ]

begin_save-Well :
    (dict_clock set_clock : ℕ → Time) (k : ℕ) (s : System)
    → Well s
    → After Well (begin_save dict_clock set_clock k s)
unfolding begin_save
begin_save-Well dict_clock set_clock k s w = elim (Option-cases (get_elem? s.server.db.saves k)) [
  | inl e ↦ rw (e, begin_save) tt
  | inr (name, e) ↦ elim (Option-cases (take_snapshot dict_clock set_clock s.server.db)) [
    | inl t ↦ rw (e, t, begin_save) tt
    | inr (snapshot, t) ↦ rw (e, t, begin_save) w
  ]
]

end_save-Well :
    (storage : Storage) (k : ℕ) (s : System) → Well s → After Well (end_save storage k s)
unfolding end_save
end_save-Well storage k s w = elim (Option-cases (get_elem? s.running k)) [
  | inl e ↦ rw (e, end_save) tt
  | inr (job, e) ↦ rw (e, end_save) w
]

rewrite_log-Well :
    (dict_clock set_clock : ℕ → Time) (s : System)
    → Well s
    → After Well (rewrite_log dict_clock set_clock s)
unfolding rewrite_log rewrite_aof
rewrite_log-Well dict_clock set_clock s w =
    elim (Option-cases (take_snapshot dict_clock set_clock s.server.db)) [
      | inl e ↦ rw (e, rewrite_log) tt
      | inr (snapshot, e) ↦ elim (Option-cases s.server.db.aof) [
        | inl a ↦ rw (e, a, rewrite_log) w
        | inr (x, a) ↦ rw (e, a, rewrite_log) w
      ]
    ]

act-Well : (auth : Str) (a : Action) (s : System) → Well s → After Well (act auth a s)
unfolding act accept_conn set_conn expire_dict expire_set
act-Well auth accepts s w = w
act-Well auth (receives i bytes) s w = at_conn-Well i s _ λ c. w
act-Well auth (requests env i sent) s w =
    at_conn-Well i s _
      λ c. when_reading-Well c.phase _ (read_request-Well (record env { auth = auth }) i c sent s w)
act-Well auth (ends i) s w =
    at_conn-Well i s _ λ c. when_reading-Well c.phase _ (read_error-Well i c s w)
act-Well auth (enters i) s w = at_conn-Well i s _ λ c. enter-Well i c s w
act-Well auth (delivers i sent) s w = at_conn-Well i s _ λ c. deliver-Well i sent c s w
act-Well auth (begins_save dict_clock set_clock k) s w = begin_save-Well dict_clock set_clock k s w
act-Well auth (ends_save storage k) s w = end_save-Well storage k s w
act-Well auth (rewrites dict_clock set_clock) s w = rewrite_log-Well dict_clock set_clock s w
act-Well auth (expires_dict config r) s w =
    with_dict w _ (dict_active_expire-keeps IsMap delete-IsMap config r s.server.db.dict w.dict)
act-Well auth (expires_set config r) s w =
    with_set w _
      (set_active_expire-keeps AreSets delete-AreSets config r s.server.db.set (w.set, w.members))

-- From well-formed stores, whatever the connections and the goroutines of the server do, in any
-- order, the stores are well-formed: strings, sets, lists and hashes have each key once, sets have
-- each member once, hashes are not empty and have each field once, and each queue with a
-- subscription is open and has that one alone.
pub Reach-Well : (auth : Str) (s t : System) → Well s → Reach auth Any s t → Well t
Reach-Well auth s t w start = w
Reach-Well auth s t w (later {t = u} r (acts a p e)) =
    subst (After Well) e (act-Well auth a u (Reach-Well auth s u w r))
