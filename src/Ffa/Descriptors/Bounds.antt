-- ===== src/Ffa/Descriptors/Bounds.antt =====
-- src/ffa/descriptors.rs: the bounds of the parser, and the form of its results.
use hypervisor.Prelude.{
  ℕ, zero, suc, ◌+◌, ◌^◌, ◌%◌, ◌<◌, ◌≤◌, ◌≡◌, refl, ap, subst, sym, arith, List, min, bit_and, ltb,
  ◌==◌, ◌||◌, Result, ok, err, All, length, Bool-cases, inl, inr,
}
use hypervisor.Bits.Fields.{bit_and-ones}
use hypervisor.Ffa.Ids.{FfaError, invalid_parameters}
use hypervisor.Ffa.StubSpmc.{Range}
use hypervisor.Ffa.Descriptors.{
  Bytes, read_u16, read_u32, read_u64, region_size, access_size, composite_size, range_size,
  max_addr_ranges, ParsedMemRegion, cons_range, parse_ranges, parsed, parse_composite,
  parse_mem_region,
}

module _ (m m' : Bytes) (tx total : ℕ) (same : (i : ℕ) → i < total → m' (tx + i) ≡ m (tx + i)) where
  same_at : (p i : ℕ) → p ≡ tx + i → i < total → m' p ≡ m p
  same_at p i e l = subst (λ q. m' q ≡ m q) (sym e) (same i l)

  same_u16 : (p i : ℕ) → p ≡ tx + i → i + 2 ≤ total → read_u16 m' p ≡ read_u16 m p
  same_u16 p i e l =
      omega
        (arith, same_at p i e (omega arith), same_at (p + 1) (i + 1) (omega arith) (omega arith))

  same_u32 : (p i : ℕ) → p ≡ tx + i → i + 4 ≤ total → read_u32 m' p ≡ read_u32 m p
  same_u32 p i e l =
      omega
        (arith, same_u16 p i e (omega arith), same_u16 (p + 2) (i + 2) (omega arith) (omega arith))

  same_u64 : (p i : ℕ) → p ≡ tx + i → i + 8 ≤ total → read_u64 m' p ≡ read_u64 m p
  same_u64 p i e l =
      omega
        (arith, same_u32 p i e (omega arith), same_u32 (p + 4) (i + 4) (omega arith) (omega arith))

  parse_ranges-same : (n off : ℕ) → parse_ranges m' tx total n off ≡ parse_ranges m tx total n off
  unfolding parse_ranges
  parse_ranges-same zero off = refl
  parse_ranges-same (suc n) off = elim (Bool-cases (ltb total (off + range_size))) [
    | inl t ↦ rw t refl
    | inr t ↦
        rw
          (
            t,
            same_u64 (tx + off) off (omega arith) (ground (arith, t)),
            same_u32 (tx + off + 8) (off + 8) (omega arith) (ground (arith, t)),
            parse_ranges-same n (off + range_size),
          )
          refl
  ]

  parse_composite-same :
      (sender flags access : ℕ)
      → access + access_size ≤ total
      → parse_composite m' tx total sender flags access
        ≡ parse_composite m tx total sender flags access
  unfolding parse_composite
  parse_composite-same sender flags access l =
      let comp = read_u32 m (tx + access + 4) in
      rw
        (
          same_u32 (tx + access + 4) (access + 4) (omega arith) (omega (arith, l)),
          same_u16 (tx + access) access (omega arith) (omega (arith, l)),
        )
        (elim (Bool-cases (ltb total (comp + composite_size))) [
          | inl t ↦ rw t refl
          | inr t ↦
              rw
                (
                  t,
                  same_u32 (tx + comp) comp (omega arith) (ground (arith, t)),
                  same_u32 (tx + comp + 4) (comp + 4) (omega arith) (ground (arith, t)),
                  parse_ranges-same (min (read_u32 m (tx + comp + 4)) max_addr_ranges)
                      (comp + composite_size),
                )
                refl
        ])

  parse_header-same :
      region_size ≤ total → parse_mem_region m' tx total ≡ parse_mem_region m tx total
  unfolding parse_mem_region
  parse_header-same l =
      let access = read_u32 m (tx + 36) in
      rw
        (
          same_u16 tx 0 (omega arith) (omega (arith, l)),
          same_u32 (tx + 8) 8 (omega arith) (omega (arith, l)),
          same_u32 (tx + 32) 32 (omega arith) (omega (arith, l)),
          same_u32 (tx + 36) 36 (omega arith) (omega (arith, l)),
        )
        (elim (Bool-cases (ltb total (access + access_size))) [
          | inl t ↦ rw t refl
          | inr t ↦
              rw
                (
                  t,
                  parse_composite-same (read_u16 m tx) (read_u32 m (tx + 8)) access
                      (ground (arith, t)),
                )
                refl
        ])

  -- The result depends on nothing but the bytes within the length that the caller gives: with
  -- those bytes equal, the parser does the same on two memories.
  pub parse_mem_region-same : parse_mem_region m' tx total ≡ parse_mem_region m tx total
  unfolding parse_mem_region
  parse_mem_region-same = elim (Bool-cases (ltb total region_size)) [
    | inl t ↦ rw t refl
    | inr t ↦ parse_header-same (ground (arith, t))
  ]

-- A range that starts on a page boundary.
abbrev pub IsAligned : Range → Type 0
IsAligned (address, n) = address % 2 ^ 12 ≡ 0

unfoldable pub AreAligned : Result FfaError (List Range) → ℕ → Type 0
AreAligned (err e) n = e ≡ invalid_parameters
AreAligned (ok rs) n = All IsAligned rs × (length rs ≡ n)

AreAligned-cons :
    (r : Range) (rest : Result FfaError (List Range)) (n : ℕ)
    → IsAligned r
    → AreAligned rest n
    → AreAligned (cons_range r rest) (suc n)
unfolding AreAligned
AreAligned-cons r (err e) n a h = h
AreAligned-cons r (ok rs) n a (b, l) = ((a, b), ap suc l)

parse_ranges-AreAligned :
    (m : Bytes) (tx total n off : ℕ) → AreAligned (parse_ranges m tx total n off) n
unfolding parse_ranges AreAligned
parse_ranges-AreAligned m tx total zero off = (tt, refl)
parse_ranges-AreAligned m tx total (suc n) off = elim (Bool-cases (ltb total (off + range_size))) [
  | inl t ↦ rw t refl
  | inr t ↦ elim (Bool-cases (bit_and (read_u64 m (tx + off)) 0xFFF == 0)) [
    | inl a ↦
        rw (t, a)
          (AreAligned-cons (read_u64 m (tx + off), read_u32 m (tx + off + 8))
            (parse_ranges m tx total n (off + range_size)) n
            (ground (arith, a, bit_and-ones 12 (read_u64 m (tx + off))))
            (parse_ranges-AreAligned m tx total n (off + range_size)))
    | inr a ↦ rw (t, a) refl
  ]
]

-- What the parser promises of its result.
unfoldable pub IsParsed : Result FfaError ParsedMemRegion → Type 0
IsParsed (err e) = e ≡ invalid_parameters
IsParsed (ok p) =
    All IsAligned p.ranges × (0 < length p.ranges) × (length p.ranges ≤ max_addr_ranges)

parsed-IsParsed :
    (sender receiver flags pages n : ℕ) (o : Result FfaError (List Range))
    → 0 < n
    → n ≤ max_addr_ranges
    → AreAligned o n
    → IsParsed (parsed sender receiver flags pages o)
unfolding IsParsed AreAligned
parsed-IsParsed sender receiver flags pages n (err e) l u h = h
parsed-IsParsed sender receiver flags pages n (ok rs) l u (a, e) =
    (a, omega (arith, l, e), omega (arith, u, e))

parse_composite-IsParsed :
    (m : Bytes) (tx total sender flags access : ℕ)
    → IsParsed (parse_composite m tx total sender flags access)
unfolding parse_composite IsParsed
parse_composite-IsParsed m tx total sender flags access =
    let comp = read_u32 m (tx + access + 4) in
    let count = read_u32 m (tx + comp + 4) in
    elim (Bool-cases (ltb total (comp + composite_size))) [
      | inl t ↦ rw t refl
      | inr t ↦ elim (Bool-cases (count == 0)) [
        | inl c ↦ rw (t, c) refl
        | inr c ↦
            rw (t, c)
              (parsed-IsParsed sender (read_u16 m (tx + access)) flags (read_u32 m (tx + comp))
                (min count max_addr_ranges)
                (parse_ranges m tx total (min count max_addr_ranges) (comp + composite_size))
                (ground (arith, c)) (ground arith)
                (parse_ranges-AreAligned m tx total (min count max_addr_ranges)
                  (comp + composite_size)))
      ]
    ]

-- Whatever bytes the guest writes, the parser either returns INVALID_PARAMETERS or a region of 1 to
-- 16 ranges, all of them on page boundaries.
pub parse_mem_region-IsParsed : (m : Bytes) (tx total : ℕ) → IsParsed (parse_mem_region m tx total)
unfolding parse_mem_region IsParsed
parse_mem_region-IsParsed m tx total =
    let access = read_u32 m (tx + 36) in
    let count = read_u32 m (tx + 32) in
    elim (Bool-cases (ltb total region_size)) [
      | inl t ↦ rw t refl
      | inr t ↦ elim (Bool-cases (count == 0 || ltb 1 count)) [
        | inl c ↦ rw (t, c) refl
        | inr c ↦ elim (Bool-cases (ltb total (access + access_size))) [
          | inl a ↦ rw (t, c, a) refl
          | inr a ↦
              rw (t, c, a)
                (parse_composite-IsParsed m tx total (read_u16 m tx) (read_u32 m (tx + 8)) access)
        ]
      ]
    ]
