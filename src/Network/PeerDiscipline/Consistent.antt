-- ===== src/Network/PeerDiscipline/Consistent.antt =====
-- A host is banned exactly while its score has reached the threshold.
use bitclone.Base.{
  ℕ, ◌+◌, ◌≤◌, ◌<◌, ◌⊎◌, ◌≡◌, refl, false, Option, none, some, leb, arith, Bool-cases, Option-cases,
  leb→le, inl, inr,
}
use bitclone.Base.Bytes.{bytes_eq, bytes_eq→eq, bytes_eq_refl}
use bitclone.Base.Dict.{
  lookup, insert, lookup-drop_key-same, lookup-drop_key-other, lookup-insert-same,
  lookup-insert-other,
}
use bitclone.Network.PeerDiscipline.{
  Host, PeerMisbehaviour, violation_score, PeerBan, PeerDiscipline, score_of, forget, expire,
  apply_violation, record_violation, score, is_banned, ban,
}

-- A ban goes with a score that has reached the threshold, and only with such a score.
abbrev pub Matching : ℕ → Option PeerBan → Option ℕ → Type 0
Matching threshold none none = Unit
Matching threshold none (some score) = score < threshold
Matching threshold (some ban) none = ⊥
Matching threshold (some ban) (some score) = threshold ≤ score

abbrev pub ConsistentAt : Host → PeerDiscipline → Type 0
ConsistentAt host d =
    Matching d.ban_threshold (lookup bytes_eq host d.bans) (lookup bytes_eq host d.scores)

abbrev pub IsConsistent : PeerDiscipline → Type 0
IsConsistent d = (host : Host) → ConsistentAt host d

forget-IsConsistent :
    (host : Host) (d : PeerDiscipline) → IsConsistent d → IsConsistent (forget host d)
unfolding forget
forget-IsConsistent host d h other = elim (Bool-cases (bytes_eq other host)) [
  | inl e ↦ rw (bytes_eq→eq other host e) (
      rw (lookup-drop_key-same bytes_eq bytes_eq→eq host d.bans)
        (rw (lookup-drop_key-same bytes_eq bytes_eq→eq host d.scores) tt))
  | inr n ↦
      rw (lookup-drop_key-other bytes_eq bytes_eq→eq other host d.bans n)
        (rw (lookup-drop_key-other bytes_eq bytes_eq→eq other host d.scores n) (h other))
]

expire_cases :
    (now : ℕ) (host : Host) (d : PeerDiscipline)
    → (expire now host d ≡ d) ⊎ (expire now host d ≡ forget host d)
unfolding expire
expire_cases now host d = elim (Option-cases (lookup bytes_eq host d.bans)) [
  | inl e ↦ inl (rw (e, expire) refl)
  | inr (ban, e) ↦ elim (Bool-cases (leb ban.banned_until now)) [
    | inl b ↦ inr (rw (e, expire) (rw b refl))
    | inr b ↦ inl (rw (e, expire) (rw b refl))
  ]
]

expire-IsConsistent :
    (now : ℕ) (host : Host) (d : PeerDiscipline) → IsConsistent d → IsConsistent (expire now host d)
expire-IsConsistent now host d h = elim (expire_cases now host d) [
  | inl e ↦ rw e h
  | inr e ↦ rw e (forget-IsConsistent host d h)
]

-- What one violation leaves for the host itself, by what was kept of it.
kept_unbanned :
    (t old more : ℕ) (ban : Option PeerBan) (kept : Option ℕ)
    → old ≡ (elim kept [ none ↦ 0 | some s ↦ s ])
    → Matching t ban kept
    → leb t (old + more) ≡ false
    → Matching t ban (some (old + more))
kept_unbanned t old more none none e h l = ground arith
kept_unbanned t old more none (some s) e h l = ground arith
kept_unbanned t old more (some b) none e h l = ground arith
kept_unbanned t old more (some b) (some s) e h l = ground arith

unbanned-IsConsistent :
    (host : Host) (v : PeerMisbehaviour) (d : PeerDiscipline)
    → IsConsistent d
    → leb d.ban_threshold (score_of host d + violation_score v) ≡ false
    → IsConsistent
        (record d { scores = insert bytes_eq host (score_of host d + violation_score v) d.scores })
unfolding score_of
unbanned-IsConsistent host v d h l other = elim (Bool-cases (bytes_eq other host)) [
  | inl e ↦ rw (bytes_eq→eq other host e) (
      rw
        (lookup-insert-same bytes_eq bytes_eq→eq host (score_of host d + violation_score v) d.scores
          (bytes_eq_refl host))
        (kept_unbanned d.ban_threshold (score_of host d) (violation_score v)
          (lookup bytes_eq host d.bans) (lookup bytes_eq host d.scores) refl (h host) l))
  | inr n ↦
      rw
        (lookup-insert-other bytes_eq bytes_eq→eq other host (score_of host d + violation_score v)
          d.scores n)
        (h other)
]

banned-IsConsistent :
    (host : Host) (new : ℕ) (b : PeerBan) (d : PeerDiscipline)
    → IsConsistent d
    → d.ban_threshold ≤ new
    → IsConsistent (record d {
      scores = insert bytes_eq host new d.scores;
      bans = insert bytes_eq host b d.bans;
    })
banned-IsConsistent host new b d h l other = elim (Bool-cases (bytes_eq other host)) [
  | inl e ↦ rw (bytes_eq→eq other host e) (
      rw (lookup-insert-same bytes_eq bytes_eq→eq host new d.scores (bytes_eq_refl host))
        (rw (lookup-insert-same bytes_eq bytes_eq→eq host b d.bans (bytes_eq_refl host)) l))
  | inr n ↦
      rw (lookup-insert-other bytes_eq bytes_eq→eq other host new d.scores n)
        (rw (lookup-insert-other bytes_eq bytes_eq→eq other host b d.bans n) (h other))
]

apply-IsConsistent :
    (later : ℕ) (host : Host) (v : PeerMisbehaviour) (d : PeerDiscipline)
    → IsConsistent d
    → IsConsistent (apply_violation later host v d).1
unfolding apply_violation
apply-IsConsistent later host v d h =
    elim (Bool-cases (leb d.ban_threshold (score_of host d + violation_score v))) [
      | inl l ↦ rw (l, apply_violation) (banned-IsConsistent host _ _ d h (leb→le _ _ l))
      | inr l ↦ rw (l, apply_violation) (unbanned-IsConsistent host v d h l)
    ]

-- In the state that each method leaves, a host is banned exactly if its score has reached the
-- threshold, if that held before: `record`, `score`, `is_banned` and `ban`.
pub methods-IsConsistent :
    (now later : ℕ) (host : Host) (v : PeerMisbehaviour) (d : PeerDiscipline)
    → IsConsistent d
    → IsConsistent (record_violation now later host v d).1
      × IsConsistent (score now host d).1
      × IsConsistent (is_banned now host d).1
      × IsConsistent (ban now host d).1
unfolding record_violation score is_banned ban
methods-IsConsistent now later host v d h = (
  apply-IsConsistent later host v _ (expire-IsConsistent now host d h),
  expire-IsConsistent now host d h,
  expire-IsConsistent now host d h,
  expire-IsConsistent now host d h,
)
