-- ===== src/Linker/Room.antt =====
-- The epilogues that `addSymbol` reserves for calls: whether they have the room that
-- `relocateCALL` needs.
use goloader.Shared.{
  ℕ, ◌+◌, ◌≤◌, ◌<◌, ◌^◌, ◌≡◌, ◌↔◌, ◌⊎◌, inl, inr, true, arith, Bool-cases, ltb, ltb→lt,
}
use goloader.Shared.Word.{sub64}
use goloader.Segment.{Reloc}
use goloader.Reloc.MaxExtra
use goloader.Reloc.X86.{fits_short}
use goloader.Reloc.X86.CallCode.{HasRoom}
use goloader.Linker.Reserve.{call_reserve}

-- A CALL with the epilogue that is reserved for it at `at`.
abbrev pub with_epilogue : Reloc → ℕ → Reloc
with_epilogue loc at = record loc { epilogue_offset = at; epilogue_size = call_reserve loc }

module _ (loc : Reloc) (at : ℕ) (fresh : loc.epilogue_offset ≡ 0) (four : loc.size ≡ 4)
    (small : loc.offset < 2 ^ 31) where
  near_from_17 : 17 ≤ loc.offset → call_reserve loc ≡ MaxExtra.call_near
  unfolding call_reserve
  near_from_17 h = ground arith

  short_below_17 : loc.offset < 17 → call_reserve loc ≡ MaxExtra.call_short
  unfolding call_reserve
  short_below_17 h = ground arith

  room_back :
      (17 ≤ loc.offset) ⊎ (fits_short (sub64 (loc.offset + loc.size) (at + 6 + 2)) ≡ true)
      → HasRoom (with_epilogue loc at)
  room_back (inl h) = inl (omega (arith, near_from_17 h))
  room_back (inr f) = elim (Bool-cases (ltb loc.offset 17)) [
    | inl l ↦ inr (omega (arith, short_below_17 (ltb→lt _ _ l)), f)
    | inr l ↦ inl (omega (arith, near_from_17 (ground arith)))
  ]

  room_forth :
      HasRoom (with_epilogue loc at)
      → (17 ≤ loc.offset) ⊎ (fits_short (sub64 (loc.offset + loc.size) (at + 6 + 2)) ≡ true)
  room_forth (inr h) = inr (h.1)
  room_forth (inl h) = elim (Bool-cases (ltb loc.offset 17)) [
    | inl l ↦ absurd (omega (arith, short_below_17 (ltb→lt _ _ l)))
    | inr l ↦ inl (ground arith)
  ]

  -- The epilogue reserved for a CALL has the room that `relocateCALL` needs exactly when the CALL's
  -- field is at 17 at least in its function, or the epilogue is so near that a short jump leads
  -- back: in the first bytes of a function of more than about 128 bytes it is too small.
  pub call_reserve-HasRoom :
      HasRoom (with_epilogue loc at)
      ↔ ((17 ≤ loc.offset) ⊎ (fits_short (sub64 (loc.offset + loc.size) (at + 6 + 2)) ≡ true))
  call_reserve-HasRoom = (room_forth, room_back)
