-- ===== src/Ffa/Descriptors/Tests.antt =====
-- The theorems on the parser at a descriptor of one range.
use hypervisor.Prelude.{ℕ, ◌+◌, ◌<◌, ◌≡◌, arith, ◌==◌, if◌then◌else◌, ltb}
use hypervisor.Ffa.Descriptors.{Bytes, parse_mem_region}
use hypervisor.Ffa.Descriptors.Bounds.{IsParsed, parse_mem_region-IsParsed, parse_mem_region-same}

-- Sender 1, one receiver 2, its access descriptor at 44, the composite one at 60, and behind it the
-- range of two pages from 0x48000000 on; 92 bytes.
abbrev descriptor : Bytes
descriptor p =
    if p == 0
    then 1
    else (if p == 32
        then 1
        else (if p == 36
            then 44
            else (if p == 44
                then 2
                else (if p == 48
                    then 60
                    else (if p == 60
                        then 2
                        else (if p == 64
                            then 1
                            else (if p == 79 then 0x48 else (if p == 84 then 2 else 0))))))))

-- The same with other bytes behind it.
abbrev with_tail : Bytes
with_tail p = if ltb p 92 then descriptor p else 255

parse_mem_region-IsParsed_example : IsParsed (parse_mem_region descriptor 0 92)
parse_mem_region-IsParsed_example = parse_mem_region-IsParsed descriptor 0 92

same_prefix : (i : ℕ) → i < 92 → with_tail (0 + i) ≡ descriptor (0 + i)
same_prefix i l = ground arith

parse_mem_region-same_example : parse_mem_region with_tail 0 92 ≡ parse_mem_region descriptor 0 92
parse_mem_region-same_example = parse_mem_region-same descriptor with_tail 0 92 same_prefix
