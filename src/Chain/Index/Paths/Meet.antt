-- ===== src/Chain/Index/Paths/Meet.antt =====
-- The two paths of a reorganization lead to one row.
use bitclone.Base.{
  ℕ, zero, suc, ◌≤◌, ◌<◌, ◌≡◌, ◌≢◌, ◌⊎◌, inl, inr, refl, sym, ap, ◌∙◌, Result, Error, ok, err, true,
  false, List, [], ◌∷◌, ◌++◌, reverse, Option, some, min, ◌==◌, ltb, ltb→lt, arith, Bool-cases,
}
use mathlib.Core.Path.{subst}
use mathlib.Core.List.{reverse-reverse}
use bitclone.Base.Bytes.{bytes_eq, bytes_eq→eq, bytes_eq_refl}
use bitclone.Chain.Index.{Index, BlockIndexEntry, get_block_index}
use bitclone.Chain.Index.Linked.{Holds, IsLinked}
use bitclone.Chain.Index.Paths.Ancestors.{
  Descends, IsRow, parent_lem, parent_of-held, Descends-append, IsRooted, IsApart, Descends-height,
  Descends-behind,
}
use bitclone.Chain.Index.Paths.{lower, meet, reorganization_paths}

lower_step :
    (fuel height : ℕ) (e p last : BlockIndexEntry) (es : List BlockIndexEntry) (index : Index)
    → ltb height e.height ≡ true
    → Holds index e.prev_hash p
    → lower fuel height p index ≡ ok (es, last)
    → lower (suc fuel) height e index ≡ ok (e ∷ es, last)
unfolding lower
lower_step fuel height e p last es index high held ran =
    rw (high, parent_of-held index e p held, ran) refl

-- The first loop returns, at the lower of the two heights.
lower_lem :
    (fuel height : ℕ) (e : BlockIndexEntry) (index : Index)
    → IsLinked index
    → IsRow index e
    → e.height ≤ fuel
    → (es : List BlockIndexEntry) × (last : BlockIndexEntry) × (lower fuel height e index
        ≡ ok (es, last))
      × Descends index es e last
      × IsRow index last
      × (last.height ≡ min e.height height)
unfolding lower
lower_lem zero height e index linked row enough =
    ([], e, ground (arith, enough), refl, row, omega (arith, enough))
lower_lem (suc fuel) height e index linked row enough = elim (Bool-cases (ltb height e.height)) [
  | inr low ↦ ([], e, rw low refl, refl, row, ground (arith, low))
  | inl high ↦
      let (p, held, row', above) = parent_lem index e height linked row (ltb→lt _ _ high) in
      let (es, last, ran, path, row_last, at) =
        lower_lem fuel height p index linked row' (omega (arith, above, enough)) in
      (
        e ∷ es,
        last,
        lower_step fuel height e p last es index high held ran,
        (refl, p, held, path),
        row_last,
        omega (arith, at, above, ltb→lt _ _ high),
      )
]

-- Both paths end at the fork, or there is no fork.
abbrev pub Meets :
    Index
    → BlockIndexEntry
    → BlockIndexEntry
    → Result (List BlockIndexEntry × List BlockIndexEntry × BlockIndexEntry)
    → Type 0
Meets index active other r =
    ((r ≡ err Error.network_data_error) × IsApart index active other)
    ⊎ ((down up : List BlockIndexEntry) × (fork : BlockIndexEntry) × (r ≡ ok (down, up, fork))
        × Descends index down active fork
        × Descends index up other fork)

same_row :
    (index : Index) (e f : BlockIndexEntry)
    → IsRow index e
    → IsRow index f
    → bytes_eq e.block_hash f.block_hash ≡ true
    → e ≡ f
same_row index e f row row' h =
    let same = bytes_eq→eq e.block_hash f.block_hash h in
    some_inj (sym row ∙ ap (λ k. get_block_index k index) same ∙ row')
  where
    some_inj : {x y : BlockIndexEntry} → ◌≡◌ {A = Option BlockIndexEntry} (some x) (some y) → x ≡ y
    some_inj p = cc

differ_lem : (e f : BlockIndexEntry) → bytes_eq e.block_hash f.block_hash ≡ false → e ≢ f
differ_lem e f h same =
    let own = bytes_eq_refl e.block_hash in
    let moved = subst (λ x. bytes_eq e.block_hash x.block_hash ≡ true) same own in cc

-- Two rows of one height are apart if they differ and their parents, where they have some, are apart.
IsApart-level :
    (index : Index) (active other : BlockIndexEntry)
    → IsLinked index
    → IsRooted index
    → IsRow index active
    → IsRow index other
    → active.height ≡ other.height
    → active ≢ other
    → ((p q : BlockIndexEntry)
        → Holds index active.prev_hash p
        → Holds index other.prev_hash q
        → IsApart index p q)
    → IsApart index active other
IsApart-level index active other linked rooted row row' level differ parents [] [] fork a b =
    differ (a ∙ sym b)
IsApart-level index active other linked rooted row row' level differ parents [] (u ∷ up) fork a b =
    absurd (
      omega (
        arith,
        level,
        ap (λ x. x.height) a,
        Descends-height index (u ∷ up) other fork linked rooted row' b,
      ))
IsApart-level index active other linked rooted row row' level differ parents (d ∷ down) [] fork a
      b =
    absurd (
      omega (
        arith,
        level,
        ap (λ x. x.height) b,
        Descends-height index (d ∷ down) active fork linked rooted row a,
      ))
IsApart-level index active other linked rooted row row' level differ parents (d ∷ down) (u ∷ up)
      fork (_, p, held, a) (_, q, held', b) =
    parents p q held held' down up fork a b

meet_lem :
    (fuel : ℕ) (active other : BlockIndexEntry) (index : Index)
    → IsLinked index
    → IsRooted index
    → IsRow index active
    → IsRow index other
    → active.height ≡ other.height
    → active.height < fuel
    → Meets index active other (meet fuel active other index)
unfolding meet
meet_lem zero active other index linked rooted row row' level enough =
    absurd (omega (arith, enough))
meet_lem (suc fuel) active other index linked rooted row row' level enough =
    elim (Bool-cases (bytes_eq active.block_hash other.block_hash)) [
      | inl h ↦ inr ([], [], active, rw h refl, refl, sym (same_row index active other row row' h))
      | inr h ↦ elim (Bool-cases (active.height == 0)) [
        | inl z ↦
            let none_above = rooted active.block_hash active row (ground (arith, z)) in
            inl (
              rw (h, none_above) refl,
              IsApart-level index active other linked rooted row row' level
                  (differ_lem active other h) (λ p q held held'. cc),
            )
        | inr z ↦
            let (p, held, row_p, above) =
              parent_lem index active 0 linked row (ground (arith, z)) in
            let (q, held', row_q, above') =
              parent_lem index other 0 linked row' (ground (arith, z, level)) in
            elim (meet_lem fuel p q index linked rooted row_p row_q
              (omega (arith, above, above', level)) (omega (arith, above, enough))) [
                | inl (e, apart) ↦ inl (
                  rw (h, held, held', e) refl,
                  IsApart-level index active other linked rooted row row' level
                      (differ_lem active other h)
                      (λ p' q' k k'.
                        let same : p ≡ p' = cc in
                        let same' : q ≡ q' = cc in
                        subst (λ x. IsApart index x q') same
                          (subst (λ x. IsApart index p x) same' apart)),
                )
                | inr (down, up, fork, e, path, path') ↦ inr (
                  active ∷ down,
                  other ∷ up,
                  fork,
                  rw (h, held, held', e) refl,
                  (refl, p, held, path),
                  (refl, q, held', path'),
                )
              ]
      ]
    ]

-- On an index whose rows continue each other down to height 0, `_reorganization_paths` of two rows
-- ends within the rounds that it is given. If no row is both rows' own or their ancestor, it raises
-- NetworkDataError; or else it returns such a row, the active rows from the tip down to it, and the
-- candidate's rows from it up, each followed by a child of its own.
pub reorganization_paths-meet :
    (index : Index) (active_tip candidate : BlockIndexEntry)
    → IsLinked index
    → IsRooted index
    → IsRow index active_tip
    → IsRow index candidate
    → ((reorganization_paths active_tip candidate index ≡ err Error.network_data_error)
        × IsApart index active_tip candidate)
      ⊎ ((disconnect connect : List BlockIndexEntry) × (fork : BlockIndexEntry)
          × (reorganization_paths active_tip candidate index ≡ ok (disconnect, connect, fork))
          × Descends index disconnect active_tip fork
          × Descends index (reverse connect) candidate fork)
unfolding reorganization_paths
reorganization_paths-meet index active_tip candidate linked rooted row row' =
    let (above, active, e1, path1, row1, at1) =
      lower_lem active_tip.height candidate.height active_tip index linked row (omega arith) in
    let (over, other, e2, path2, row2, at2) =
      lower_lem candidate.height active.height candidate index linked row' (omega arith) in
    elim (meet_lem (suc active.height) active other index linked rooted row1 row2
      (omega (arith, at1, at2)) (omega arith)) [
        | inl (e, apart) ↦ inl (
          rw (e1, e2, e) refl,
          λ down up fork a b.
              let under = Descends-height index down active_tip fork linked rooted row a in
              let under' = Descends-height index up candidate fork linked rooted row' b in
              let (gs, a') =
                Descends-behind index above down active_tip active fork linked rooted row path1 a
                  (omega (arith, at1, under, under')) in
              let (hs, b') =
                Descends-behind index over up candidate other fork linked rooted row' path2 b
                  (omega (arith, at1, at2, under, under')) in
              apart gs hs fork a' b',
        )
        | inr (down, up, fork, e, path3, path4) ↦ inr (
          above ++ down,
          reverse (over ++ up),
          fork,
          rw (e1, e2, e) refl,
          Descends-append index above down active_tip active fork path1 path3,
          subst (λ es. Descends index es candidate fork) (sym (reverse-reverse (over ++ up)))
              (Descends-append index over up candidate other fork path2 path4),
        )
      ]
