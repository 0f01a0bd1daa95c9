-- ===== src/Load/Layout.antt =====
-- Where `Load` puts the sections.
use goloader.Shared.{ℕ, ◌+◌, ◌≤◌, ◌≡◌, ◌∙◌, refl, List, [], ◌∷◌, length, arith}
use goloader.Shared.Outcome.{ok}
use goloader.Shared.Bytes.{slice, slice_all, copy_from_ok, length-write_at}
use goloader.Shared.Bytes.Patch.{patch, length-patch, slice-patch}
use goloader.Segment.{Segment}
use goloader.Load.{Sections, sum_data_len, segment_of, fill_segment}

pub fill_parts :
    (x : Sections) (code_base : ℕ) (code_mem : List ℕ) (data_base : ℕ) (data_mem : List ℕ)
    → length x.code ≤ length code_mem
    → sum_data_len x ≤ length data_mem
    → (c b : List ℕ) × (fill_segment x code_base code_mem data_base data_mem
        ≡ ok (segment_of x code_base c data_base b (sum_data_len x)))
      × (length b ≡ length data_mem)
      × (slice c 0 (length x.code) ≡ x.code)
      × (slice b 0 (length x.data_bytes) ≡ x.data_bytes)
      × (slice b (length x.data_bytes) (length x.noptrdata) ≡ x.noptrdata)
      × (slice b (length x.data_bytes + length x.noptrdata) (length x.bss) ≡ x.bss)
      × (slice b (length x.data_bytes + length x.noptrdata + length x.bss) (length x.noptrbss)
          ≡ x.noptrbss)
unfolding fill_segment
fill_parts x code_base code_mem data_base data_mem hc hd = (
  patch code_mem ((0, x.code) ∷ []),
  patch data_mem (d ∷ n ∷ b ∷ z ∷ []),
  rw (
    copy_from_ok code_mem 0 x.code (omega arith),
    fill_segment,
    copy_from_ok data_mem 0 x.data_bytes (omega arith),
    copy_from_ok (patch data_mem (d ∷ [])) d_end x.noptrdata (omega (arith, length-write_at)),
    copy_from_ok (patch data_mem (d ∷ n ∷ [])) n_end x.bss (omega (arith, length-write_at)),
    copy_from_ok (patch data_mem (d ∷ n ∷ b ∷ [])) b_end x.noptrbss
        (omega (arith, length-write_at)),
  ),
  length-patch data_mem (d ∷ n ∷ b ∷ z ∷ []),
  slice-patch code_mem [] 0 x.code [] 0 0 (omega arith) (omega arith) (length x.code) (omega arith)
        tt
      ∙ slice_all x.code,
  slice-patch data_mem [] 0 x.data_bytes (n ∷ b ∷ z ∷ []) 0 0 (omega arith) (omega arith)
        (length x.data_bytes) (omega arith) (omega arith)
      ∙ slice_all x.data_bytes,
  slice-patch data_mem (d ∷ []) d_end x.noptrdata (b ∷ z ∷ []) d_end 0 (omega arith) (omega arith)
        (length x.noptrdata) (omega arith) (omega arith)
      ∙ slice_all x.noptrdata,
  slice-patch data_mem (d ∷ n ∷ []) n_end x.bss (z ∷ []) n_end 0 (omega arith) (omega arith)
        (length x.bss) (omega arith) (omega arith)
      ∙ slice_all x.bss,
  slice-patch data_mem (d ∷ n ∷ b ∷ []) b_end x.noptrbss [] b_end 0 (omega arith) (omega arith)
        (length x.noptrbss) (omega arith) tt
      ∙ slice_all x.noptrbss,
)
  where
    d_end : ℕ
    d_end = length x.data_bytes

    n_end : ℕ
    n_end = length x.data_bytes + length x.noptrdata

    b_end : ℕ
    b_end = length x.data_bytes + length x.noptrdata + length x.bss

    d : ℕ × List ℕ
    d = (0, x.data_bytes)

    n : ℕ × List ℕ
    n = (length x.data_bytes, x.noptrdata)

    b : ℕ × List ℕ
    b = (length x.data_bytes + length x.noptrdata, x.bss)

    z : ℕ × List ℕ
    z = (length x.data_bytes + length x.noptrdata + length x.bss, x.noptrbss)

-- In mappings that are large enough, the text starts the first and the four sections of the data
-- stand one behind the other from the start of the second, whole and in this order; the lengths
-- in the segment are the sections' own.
pub fill_segment-slice :
    (x : Sections) (code_base : ℕ) (code_mem : List ℕ) (data_base : ℕ) (data_mem : List ℕ)
    → length x.code ≤ length code_mem
    → sum_data_len x ≤ length data_mem
    → (s : Segment) × (fill_segment x code_base code_mem data_base data_mem ≡ ok s)
      × (slice s.code_byte 0 s.code_len ≡ x.code)
      × (slice s.data_byte 0 s.data_len ≡ x.data_bytes)
      × (slice s.data_byte s.data_len s.noptrdata_len ≡ x.noptrdata)
      × (slice s.data_byte (s.data_len + s.noptrdata_len) s.bss_len ≡ x.bss)
      × (slice s.data_byte (s.data_len + s.noptrdata_len + s.bss_len) s.noptrbss_len ≡ x.noptrbss)
      × (s.data_off ≡ s.sum_data_len)
fill_segment-slice x code_base code_mem data_base data_mem hc hd =
    let (c, b, e, l, text, data_part, noptrdata, bss, noptrbss) =
      fill_parts x code_base code_mem data_base data_mem hc hd in
    (
      segment_of x code_base c data_base b (sum_data_len x),
      e,
      text,
      data_part,
      noptrdata,
      bss,
      noptrbss,
      refl,
    )
