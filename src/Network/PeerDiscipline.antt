-- ===== src/Network/PeerDiscipline.antt =====
-- network/peer_discipline.py, class PeerDiscipline. Times are natural: `now` is what the clock says.
-- Each method here takes the normalized host; `normalize_host` is the normalization.
pub mod Consistent
use bitclone.Base.{
  ℕ, ◌+◌, Bool, true, false, List, [], ◌∷◌, Option, none, some, reverse, leb, ◌==◌, if◌then◌else◌,
}
use bitclone.Base.Bytes.{Bytes, bytes_eq}
use bitclone.Base.Dict.{lookup, drop_key, insert, contains}

-- A text as its code points.
abbrev pub Host : Type 0
Host = Bytes

pub data PeerMisbehaviour : Type 0 where
  malformed_message protocol_violation invalid_data : PeerMisbehaviour

-- The score that each member is defined with.
unfoldable pub violation_score : PeerMisbehaviour → ℕ
violation_score PeerMisbehaviour.malformed_message = 20
violation_score PeerMisbehaviour.protocol_violation = 20
violation_score PeerMisbehaviour.invalid_data = 50

pub record PeerBan : Type 0 where
  pub host : Host
  pub score : ℕ
  pub reason : PeerMisbehaviour
  pub banned_until : ℕ

pub record PeerDiscipline : Type 0 where
  pub ban_threshold : ℕ
  pub ban_duration : ℕ
  pub scores : List (Host × ℕ)
  pub bans : List (Host × PeerBan)

-- `self._scores.get(host, 0)`
unfoldable pub score_of : Host → PeerDiscipline → ℕ
score_of host d = elim (lookup bytes_eq host d.scores) [ none ↦ 0 | some score ↦ score ]

unfoldable pub forget : Host → PeerDiscipline → PeerDiscipline
forget host d = record d {
  bans = drop_key bytes_eq host d.bans;
  scores = drop_key bytes_eq host d.scores;
}

-- `_expire`
unfoldable pub expire : ℕ → Host → PeerDiscipline → PeerDiscipline
expire now host d = elim (lookup bytes_eq host d.bans) [
  | none ↦ d
  | some ban ↦ if leb ban.banned_until now then forget host d else d
]

-- `record` behind `_expire`; the clock is read again, `later`, for the end of the ban.
unfoldable pub apply_violation : ℕ → Host → PeerMisbehaviour → PeerDiscipline → ℕ × PeerDiscipline
apply_violation later host violation d =
    let score = score_of host d + violation_score violation in
    let d' = record d { scores = insert bytes_eq host score d.scores } in
    (
      score,
      if leb d.ban_threshold score
          then record d' {
            bans =
                insert bytes_eq host
                  (record {
                    host = host;
                    score = score;
                    reason = violation;
                    banned_until = later + d.ban_duration;
                  })
                  d.bans;
          }
          else d',
    )

unfoldable pub record_violation :
    ℕ → ℕ → Host → PeerMisbehaviour → PeerDiscipline → ℕ × PeerDiscipline
record_violation now later host violation d =
    apply_violation later host violation (expire now host d)

unfoldable pub score : ℕ → Host → PeerDiscipline → ℕ × PeerDiscipline
score now host d = let d' = expire now host d in (score_of host d', d')

unfoldable pub is_banned : ℕ → Host → PeerDiscipline → Bool × PeerDiscipline
is_banned now host d = let d' = expire now host d in (contains bytes_eq host d'.bans, d')

unfoldable pub ban : ℕ → Host → PeerDiscipline → Option PeerBan × PeerDiscipline
ban now host d = let d' = expire now host d in (lookup bytes_eq host d'.bans, d')

-- `text.rstrip(".")`, on the reversed text.
unfoldable pub drop_dots : Host → Host
drop_dots [] = []
drop_dots (c ∷ cs) = let rest = drop_dots cs in if c == 0x2e then rest else c ∷ cs

-- `ip_address` is the ipaddress module's canonical text of an address, `lower` is str.lower.
module _ (ip_address : Host → Option Host) (lower : Host → Host) where
  unfoldable pub normalize_host : Host → Host
  normalize_host host = elim (ip_address host) [
    | some text ↦ text
    | none ↦ lower (reverse (drop_dots (reverse host)))
  ]
