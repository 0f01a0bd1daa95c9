-- ===== src/Reloc/X86/CallSite.antt =====
-- The detour of a far call: the writes that `far_call` makes, read back by the machine.
use goloader.Shared.{
  ℕ, ◌+◌, ◌-◌, ◌≤◌, ◌<◌, ◌^◌, ◌≡◌, ◌∙◌, refl, ap, true, false, List, [], ◌∷◌, some, length, arith,
}
use goloader.Shared.Word.{sub64, u32, slt, u8, neg64, overflows32}
use goloader.Shared.Bytes.{byte_at, u32_at, u64_at, le_bytes}
use goloader.Shared.Bytes.Patch.{Writes, patch, AllApart, byte_at-patch, u32_at-patch, u64_at-patch}
use goloader.Reloc.X86.Machine.{decode, jmp, far_call, detour, near_target, short_target}

pub near_target_lem :
    (base end p : ℕ)
    → base + end < 2 ^ 64
    → base + p < 2 ^ 64
    → overflows32 (sub64 p end) ≡ false
    → near_target base end (u32 (sub64 p end)) ≡ p
unfolding near_target
near_target_lem base end p h k f = ground arith

pub short_target_lem :
    (base end p : ℕ)
    → base + end < 2 ^ 64
    → base + p < 2 ^ 64
    → slt (neg64 0x80) (sub64 p end) ≡ true
    → slt (sub64 p end) 0 ≡ true
    → short_target base end (u8 (sub64 p end)) ≡ p
unfolding short_target
short_target_lem base end p h k lo hi = ground arith

module _ (b : List ℕ) (base pos : ℕ) where
  pub decode_jmp_near :
      byte_at b pos ≡ 0xE9
      → decode b base pos ≡ jmp (near_target base (pos + 5) (u32_at b (pos + 1)))
  unfolding decode
  decode_jmp_near e = rw e

  decode_jmp_short :
      byte_at b pos ≡ 0xEB
      → decode b base pos ≡ jmp (short_target base (pos + 2) (byte_at b (pos + 1)))
  unfolding decode
  decode_jmp_short e = rw e

  decode-far_call :
      byte_at b pos ≡ 0xFF
      → byte_at b (pos + 1) ≡ 0x15
      → decode b base pos ≡ far_call (u64_at b (near_target base (pos + 6) (u32_at b (pos + 2))))
  unfolding decode
  decode-far_call e f = rw (e, f)

-- The pointer of CALL [RIP+n] lies `n` bytes past the instruction.
near_target_pointer :
    (base end n : ℕ) → n < 256 → base + end + n < 2 ^ 64 → near_target base end n ≡ end + n
unfolding near_target
near_target_pointer base end n h k = ground arith

abbrev pub call_far_bytes : List ℕ
call_far_bytes = 0xFF ∷ 0x15 ∷ 0 ∷ 0 ∷ 0 ∷ 0 ∷ []

-- The writes of `far_call`, by what each is for, and last the call's own displacement.
abbrev pub last_writes : ℕ → ℕ → ℕ → ℕ → Writes
last_writes place target off dist = (place, le_bytes 8 target) ∷ (off, le_bytes 4 dist) ∷ []

abbrev pub short_jump : ℕ → ℕ → ℕ → ℕ → ℕ → Writes
short_jump epi ret target off dist =
    (epi + 6, 0xEB ∷ 0 ∷ [])
    ∷ (epi + 6 + 1, le_bytes 1 ret)
    ∷ last_writes (epi + 6 + 2) target off dist

abbrev pub near_jump : ℕ → ℕ → ℕ → ℕ → ℕ → Writes
near_jump epi ret target off dist =
    (epi + 6, 0xE9 ∷ 0 ∷ 0 ∷ 0 ∷ 0 ∷ [])
    ∷ (epi + 6 + 1, le_bytes 4 ret)
    ∷ last_writes (epi + 6 + 5) target off dist

abbrev pub call_and : ℕ → ℕ → Writes → Writes
call_and epi n jump = (epi, call_far_bytes) ∷ (epi + 6 - 4, le_bytes 4 n) ∷ jump

pub detour_lem :
    (b : List ℕ) (base pos : ℕ) {target p : ℕ}
    → decode b base pos ≡ far_call target
    → decode b base (pos + 6) ≡ jmp p
    → detour b base pos ≡ some (target, p)
detour_lem b base pos e f = ground arith

-- A call through the pointer that lies `n` bytes past it.
module _ (c : List ℕ) (base epi n target : ℕ) (jump : Writes) (small : n < 256)
    (loaded : base + epi + 6 + n < 2 ^ 64) (room : epi + 6 ≤ length c) where
  call_reads :
      AllApart epi 1 ((epi + 6 - 4, le_bytes 4 n) ∷ jump)
      → AllApart (epi + 1) 1 ((epi + 6 - 4, le_bytes 4 n) ∷ jump)
      → AllApart (epi + 2) 4 jump
      → u64_at (patch c (call_and epi n jump)) (epi + 6 + n) ≡ target
      → decode (patch c (call_and epi n jump)) base epi ≡ far_call target
  unfolding byte_at u32_at
  call_reads a b d e =
      decode-far_call _ base epi
        (byte_at-patch c [] epi call_far_bytes ((epi + 6 - 4, le_bytes 4 n) ∷ jump) epi 0
          (omega arith) (omega arith) (omega arith) a)
        (byte_at-patch c [] epi call_far_bytes ((epi + 6 - 4, le_bytes 4 n) ∷ jump) (epi + 1) 1 refl
          (omega arith) (omega arith) b)
      ∙ ap far_call (ap (u64_at _) pointer ∙ e)
    where
      pointer :
          near_target base (epi + 6) (u32_at (patch c (call_and epi n jump)) (epi + 2))
          ≡ epi + 6 + n
      pointer =
          ap (near_target base (epi + 6)) (
            u32_at-patch c ((epi, call_far_bytes) ∷ []) (epi + 6 - 4) (le_bytes 4 n) jump (epi + 2)
              0 (omega arith) (omega arith) (omega arith) d
            ∙ omega arith)
          ∙ near_target_pointer base (epi + 6) n small (omega arith)

module _ (c : List ℕ) (base off epi target dist resume : ℕ) (before : off + 4 ≤ epi)
    (behind : resume ≤ epi) (in_word : target < 2 ^ 64) (loaded : base + length c < 2 ^ 64) where
  -- The detour that returns by a short jump.
  module _ (room : epi + 16 ≤ length c) (lo : slt (neg64 0x80) (sub64 resume (epi + 6 + 2)) ≡ true)
      (hi : slt (sub64 resume (epi + 6 + 2)) 0 ≡ true) where
    abbrev short_return : ℕ
    short_return = u8 (sub64 resume (epi + 6 + 2))

    abbrev short_code : List ℕ
    short_code = patch c (call_and epi 2 (short_jump epi short_return target off dist))

    short_call : decode short_code base epi ≡ far_call target
    unfolding u64_at
    short_call =
        call_reads c base epi 2 target (short_jump epi short_return target off dist) (omega arith)
          (omega arith) (omega arith) (omega arith) (omega arith) (omega arith)
          (u64_at-patch c
              (call_and epi 2
                ((epi + 6, 0xEB ∷ 0 ∷ []) ∷ (epi + 6 + 1, le_bytes 1 short_return) ∷ []))
              (epi + 6 + 2) (le_bytes 8 target) ((off, le_bytes 4 dist) ∷ []) (epi + 6 + 2) 0
              (omega arith) (omega arith) (omega arith) (omega arith)
            ∙ omega arith)

    short_back : decode short_code base (epi + 6) ≡ jmp resume
    unfolding byte_at
    short_back =
        decode_jmp_short short_code base (epi + 6) (
          byte_at-patch c (call_and epi 2 []) (epi + 6) (0xEB ∷ 0 ∷ [])
            ((epi + 6 + 1, le_bytes 1 short_return) ∷ last_writes (epi + 6 + 2) target off dist)
            (epi + 6) 0 (omega arith) (omega arith) (omega arith) (omega arith))
        ∙ ap jmp (
            ap (short_target base (epi + 6 + 2)) (
              byte_at-patch c (call_and epi 2 ((epi + 6, 0xEB ∷ 0 ∷ []) ∷ [])) (epi + 6 + 1)
                (le_bytes 1 short_return) (last_writes (epi + 6 + 2) target off dist) (epi + 6 + 1)
                0 (omega arith) (omega arith) (omega arith) (omega arith)
              ∙ omega arith)
            ∙ short_target_lem base (epi + 6 + 2) resume (omega arith) (omega arith) lo hi)

    pub detour_short : detour short_code base epi ≡ some (target, resume)
    detour_short = detour_lem short_code base epi short_call short_back

  -- The detour that returns by a near jump.
  module _ (room : epi + 19 ≤ length c)
      (near : overflows32 (sub64 resume (epi + 6 + 5)) ≡ false) where
    abbrev near_return : ℕ
    near_return = u32 (sub64 (sub64 resume (epi + 6 + 2)) 3)

    abbrev near_code : List ℕ
    near_code = patch c (call_and epi 5 (near_jump epi near_return target off dist))

    near_call : decode near_code base epi ≡ far_call target
    unfolding u64_at
    near_call =
        call_reads c base epi 5 target (near_jump epi near_return target off dist) (omega arith)
          (omega arith) (omega arith) (omega arith) (omega arith) (omega arith)
          (u64_at-patch c
              (call_and epi 5
                ((epi + 6, 0xE9 ∷ 0 ∷ 0 ∷ 0 ∷ 0 ∷ []) ∷ (epi + 6 + 1, le_bytes 4 near_return) ∷ []))
              (epi + 6 + 5) (le_bytes 8 target) ((off, le_bytes 4 dist) ∷ []) (epi + 6 + 5) 0
              (omega arith) (omega arith) (omega arith) (omega arith)
            ∙ omega arith)

    near_back : decode near_code base (epi + 6) ≡ jmp resume
    unfolding byte_at u32_at
    near_back =
        decode_jmp_near near_code base (epi + 6) (
          byte_at-patch c (call_and epi 5 []) (epi + 6) (0xE9 ∷ 0 ∷ 0 ∷ 0 ∷ 0 ∷ [])
            ((epi + 6 + 1, le_bytes 4 near_return) ∷ last_writes (epi + 6 + 5) target off dist)
            (epi + 6) 0 (omega arith) (omega arith) (omega arith) (omega arith))
        ∙ ap jmp (
            ap (near_target base (epi + 6 + 5)) (
              u32_at-patch c (call_and epi 5 ((epi + 6, 0xE9 ∷ 0 ∷ 0 ∷ 0 ∷ 0 ∷ []) ∷ []))
                (epi + 6 + 1) (le_bytes 4 near_return) (last_writes (epi + 6 + 5) target off dist)
                (epi + 6 + 1) 0 (omega arith) (omega arith) (omega arith) (omega arith)
              ∙ omega arith)
            ∙ near_back_target)
      where
        same : sub64 (sub64 resume (epi + 6 + 2)) 3 ≡ sub64 resume (epi + 6 + 5)
        same = omega arith

        near_back_target : near_target base (epi + 6 + 5) near_return ≡ resume
        near_back_target =
            rw same (near_target_lem base (epi + 6 + 5) resume (omega arith) (omega arith) near)

    pub detour_near : detour near_code base epi ≡ some (target, resume)
    detour_near = detour_lem near_code base epi near_call near_back
