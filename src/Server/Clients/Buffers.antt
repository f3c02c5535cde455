-- ===== src/Server/Clients/Buffers.antt =====
-- The buffers of the clients in monitor mode.
use valkeydb.Base.{
  ℕ, ◌≤◌, ◌≡◌, inl, inr, subst, some, List, [], ◌∷◌, ◌++◌, arith, length, length-append, ◌==◌,
  Option-cases, List-cases, Bool-cases,
}
use valkeydb.Resp.{Value, items_of, type_of, to_list}
use valkeydb.Aof.{is_array}
use valkeydb.Server.{monitor_publish, send_each, monitor_send, remove_monitor}
use valkeydb.Server.Rounds.{head_line, take_line}

abbrev pub AreShort : List (ℕ × List Value) → Type 0
AreShort [] = Unit
AreShort ((ch, buffer) ∷ monitors) = (length buffer ≤ 128) × AreShort monitors

pub send_each-AreShort :
    (v : Value) (monitors : List (ℕ × List Value))
    → AreShort monitors
    → AreShort (send_each v monitors)
unfolding send_each monitor_send
send_each-AreShort v [] h = tt
send_each-AreShort v ((ch, buffer) ∷ monitors) h =
    (ground (arith, h.0, length-append buffer (v ∷ [])), send_each-AreShort v monitors h.1)

pub monitor_publish-AreShort :
    (req : Value) (monitors : List (ℕ × List Value))
    → AreShort monitors
    → AreShort (monitor_publish req monitors)
unfolding monitor_publish
monitor_publish-AreShort req monitors h = elim (List-cases (to_list (items_of req))) [
  | inl e ↦ rw (e, monitor_publish) h
  | inr (c, args, e) ↦ elim (Bool-cases (is_array (type_of req))) [
    | inl t ↦ rw (e, t, monitor_publish) (send_each-AreShort _ monitors h)
    | inr t ↦ rw (e, t, monitor_publish) h
  ]
]

pub remove_monitor-AreShort :
    (ch : ℕ) (monitors : List (ℕ × List Value))
    → AreShort monitors
    → AreShort (remove_monitor ch monitors)
unfolding remove_monitor
remove_monitor-AreShort ch [] h = tt
remove_monitor-AreShort ch ((i, buffer) ∷ monitors) h =
    ground (arith, remove_monitor-AreShort ch monitors h.1)

pub AreShort-append :
    (monitors : List (ℕ × List Value)) (ch : ℕ)
    → AreShort monitors
    → AreShort (monitors ++ (ch, []) ∷ [])
AreShort-append [] ch h = (omega arith, tt)
AreShort-append ((i, buffer) ∷ monitors) ch h = (h.0, AreShort-append monitors ch h.1)

pub take_line-AreShort :
    (ch : ℕ) (monitors : List (ℕ × List Value)) (line : Value) (left : List (ℕ × List Value))
    → AreShort monitors
    → take_line ch monitors ≡ some (line, left)
    → AreShort left
unfolding take_line head_line
take_line-AreShort ch [] line left h e = absurd (ground (arith, e))
take_line-AreShort ch ((i, buffer) ∷ monitors) line left h e = elim (Bool-cases (i == ch)) [
  | inl here ↦ first buffer (rw here at e) h
  | inr other ↦ elim (Option-cases (take_line ch monitors)) [
    | inl f ↦ absurd (ground (arith, rw (other, f) at e))
    | inr ((line', left'), f) ↦
        let rest : AreShort left' = take_line-AreShort ch monitors line' left' h.1 f in
        let same : (i, buffer) ∷ left' ≡ left = ground (arith, rw (other, f) at e) in
        subst AreShort same (h.0, rest)
  ]
]
  where
    first :
        (buffer : List Value)
        → head_line i buffer monitors ≡ some (line, left)
        → AreShort ((i, buffer) ∷ monitors)
        → AreShort left
    first [] e h = absurd (ground (arith, e))
    first (x ∷ buffer) e h =
        let same : (i, buffer) ∷ monitors ≡ left = ground (arith, e) in
        subst AreShort same (omega (arith, h.0), h.1)
