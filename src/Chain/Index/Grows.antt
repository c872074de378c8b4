-- ===== src/Chain/Index/Grows.antt =====
-- What `add_headers` leaves of the index.
use bitclone.Base.{
  Error, ℕ, ◌+◌, ◌≡◌, inl, inr, refl, sym, ap, ◌∙◌, Result, ok, err, >>=-eq-ok, ok_inj, true, false,
  List, [], ◌∷◌, none, some, All, arith, Bool-cases, Option-cases, Result-cases,
}
use mathlib.Core.Path.{subst}
use bitclone.Base.Bytes.{Bytes, bytes_eq, bytes_eq→eq, int_to_be}
use bitclone.Block.Header
use bitclone.Block.Header.{BlockHeader}
use bitclone.Chain.Params.{ChainParams}
use bitclone.Chain.Difficulty.{calc_block_work, validate_header_pow}
use bitclone.Chain.Index.{
  Index, BlockIndexEntry, BlockStatus, get_block_index, put_entry, add_block_index_entry,
  add_block_header, chainwork_of, index_row,
}
use bitclone.Chain.Index.Headers.{add_new_header, agrees, add_from, add_headers}
use bitclone.Chain.Index.Linked.{
  Holds, IsLinked, Extends, put_entry-Holds, fresh-Extends, fresh-IsLinked,
}

-- The row that `_add_block_index_entry` writes over the parent `p`.
added_row :
    (hash256 : Bytes → Bytes) (h : BlockHeader) (height : ℕ) (index index' : Index) (id : Bytes)
    (p : BlockIndexEntry)
    → Header.block_id hash256 h ≡ ok id
    → Holds index h.prev_block p
    → add_block_header hash256 h height index ≡ ok index'
    → (e : BlockIndexEntry) × (index' ≡ put_entry e index)
      × (e.block_hash ≡ id)
      × (e.prev_hash ≡ h.prev_block)
      × (e.height ≡ height)
      × (e.chainwork ≡ p.chainwork + e.work)
unfolding add_block_header add_block_index_entry
added_row hash256 h height index index' id p hashed parent e =
    let (work, e1, r1) = >>=-eq-ok (calc_block_work h.bits) _ e in
    let (id', e2, r2) = >>=-eq-ok (Header.block_id hash256 h) _ r1 in
    let (_, e3, r3) = >>=-eq-ok (int_to_be 32 work) _ r2 in
    let chainwork = chainwork_of (get_block_index h.prev_block index) + work in
    let (_, e4, r4) = >>=-eq-ok (int_to_be 32 chainwork) _ r3 in
    (
      index_row h id' height work chainwork false BlockStatus.headers_only,
      sym (ok_inj _ _ r4),
      ok_inj _ _ (sym e2 ∙ hashed),
      refl,
      refl,
      ap (λ o. chainwork_of o + work) parent,
    )

-- What a call leaves of the index, with the headers that it returned as new.
module _ (hash256 : Bytes → Bytes) where
  abbrev pub Grows : Index → Result (List BlockHeader) × Index → Type 0
  Grows index (result, index') =
      IsLinked index'
      × Extends index index'
      × ((accepted : List BlockHeader)
          → result ≡ ok accepted
          → All (λ h. validate_header_pow hash256 h ≡ ok true) accepted)

  Grows-err : (index : Index) (why : Error) → IsLinked index → Grows index (err why, index)
  Grows-err index why linked = (linked, (λ hash e h. h), λ accepted e. cc)

  module _ (params : ChainParams) (now : ℕ) where
    add_new_header-ok :
        (h : BlockHeader) (id : Bytes) (height : ℕ) (index index' : Index)
        → add_new_header hash256 params now h id height index ≡ ok index'
        → (validate_header_pow hash256 h ≡ ok true)
          × (add_block_header hash256 h height index ≡ ok index')
    unfolding add_new_header
    add_new_header-ok h id height index index' e = ground (arith, e)

    new_header_lem :
        (h : BlockHeader) (id : Bytes) (p : BlockIndexEntry) (index index' : Index)
        → IsLinked index
        → Header.block_id hash256 h ≡ ok id
        → get_block_index id index ≡ none
        → Holds index h.prev_block p
        → add_new_header hash256 params now h id (p.height + 1) index ≡ ok index'
        → IsLinked index'
          × Extends index index'
          × (validate_header_pow hash256 h ≡ ok true)
          × (f : BlockIndexEntry) × Holds index' id f
    new_header_lem h id p index index' linked hashed fresh parent e =
        let (pow, stored) = add_new_header-ok h id (p.height + 1) index index' e in
        let (f, made, same_id, prev, height, work) =
          added_row hash256 h (p.height + 1) index index' id p hashed parent stored in
        let fresh' : get_block_index f.block_hash index ≡ none =
          subst (λ i. get_block_index i index ≡ none) (sym same_id) fresh in
        let parent' : Holds index f.prev_hash p = subst (λ i. Holds index i p) (sym prev) parent in
        subst
          (λ i.
            IsLinked i
            × Extends index i
            × (validate_header_pow hash256 h ≡ ok true)
            × (g : BlockIndexEntry) × Holds i id g)
          (sym made)
          (
            fresh-IsLinked f p index linked fresh' parent' (omega (arith, height)) work,
            fresh-Extends f index fresh',
            pow,
            f,
            subst (λ i. Holds (put_entry f index) i f) same_id (put_entry-Holds f index),
          )

    -- A header that went in as new, before what the rest of the batch gave.
    after_new :
        (h : BlockHeader) (index index' : Index) (r : Result (List BlockHeader) × Index)
        → Extends index index'
        → validate_header_pow hash256 h ≡ ok true
        → Grows index' r
        → Grows index (elim r.0 [ err e ↦ err e | ok others ↦ ok (h ∷ others) ], r.1)
    after_new h index index' (err e, last) grows pow (linked, more, valid) =
        (linked, (λ hash f k. more hash f (grows hash f k)), λ accepted k. cc)
    after_new h index index' (ok others, last) grows pow (linked, more, valid) = (
      linked,
      (λ hash f k. more hash f (grows hash f k)),
      λ accepted k.
          subst (All (λ x. validate_header_pow hash256 x ≡ ok true)) (ok_inj _ _ k)
            (pow, valid others refl),
    )

    add_from-Grows :
        (previous : Bytes) (p : BlockIndexEntry) (hs : List BlockHeader) (index : Index)
        → IsLinked index
        → Holds index previous p
        → Grows index (add_from hash256 params now previous (some p) hs index)
    unfolding add_from
    add_from-Grows previous p [] index linked parent =
        (linked, (λ hash e k. k), λ accepted k. subst (All _) (ok_inj _ _ k) tt)
    add_from-Grows previous p (h ∷ hs) index linked parent =
        elim (Bool-cases (bytes_eq h.prev_block previous)) [
          | inr other ↦ rw other (Grows-err index Error.network_data_error linked)
          | inl same ↦ rw same (elim (Result-cases (Header.block_id hash256 h)) [
            | inr (why, e) ↦ rw e (Grows-err index why linked)
            | inl (id, e) ↦ rw e (elim (Option-cases (get_block_index id index)) [
              | inr (existing, known) ↦ rw known (elim (Bool-cases (agrees existing h p)) [
                | inr differs ↦ rw differs (Grows-err index Error.network_data_error linked)
                | inl fits ↦ rw fits (add_from-Grows id existing hs index linked known)
              ])
              | inl unknown ↦
                  rw unknown
                    (elim (Result-cases
                      (add_new_header hash256 params now h id (p.height + 1) index)) [
                        | inr (why, f) ↦ rw f (Grows-err index why linked)
                        | inl (index', f) ↦ rw f (
                            let (linked', grows, pow, row, stored) =
                              new_header_lem h id p index index' linked e unknown
                                (subst (λ i. Holds index i p) (sym (bytes_eq→eq _ _ same)) parent)
                                f in
                            rw stored (
                              after_new h index index' _ grows pow
                                (add_from-Grows id row hs index' linked' stored)))
                      ])
            ])
          ])
        ]

    -- However a batch goes, and at whichever header it is refused, each row of the index stays as it
    -- was, every row above height 0 still stands one above a row of its predecessor with its work
    -- added, and every header returned as new passed `_validate_header_pow`.
    pub add_headers-Grows :
        (hs : List BlockHeader) (index : Index)
        → IsLinked index
        → Grows index (add_headers hash256 params now hs index)
    unfolding add_headers
    add_headers-Grows [] index linked =
        (linked, (λ hash e k. k), λ accepted k. subst (All _) (ok_inj _ _ k) tt)
    add_headers-Grows (h ∷ hs) index linked =
        elim (Option-cases (get_block_index h.prev_block index)) [
          | inl e ↦ rw (e, add_headers) (Grows-err index Error.network_data_error linked)
          | inr (p, e) ↦ rw (e, add_headers) (add_from-Grows h.prev_block p (h ∷ hs) index linked e)
        ]
