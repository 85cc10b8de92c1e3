-- ===== src/Protocol/Frame.antt =====
-- The bytes that SendPacket of src/protocol/protocol.cc puts on the wire, and loading them in parts.
use sqpkv.Prelude.{
  ℕ, ◌%◌, ◌≤◌, ◌<◌, ◌≡◌, inl, inr, refl, sym, ap, ◌∙◌, false, some, List, [], ◌∷◌, ◌++◌, arith,
  append_assoc, length, take, drop, length-append, length-take, take-append-drop, ◌==◌,
  if◌then◌else◌, Bool-cases,
}
use sqpkv.Memory.{load}
use sqpkv.Memory.Laws.{load-append}
use sqpkv.Protocol.{max_net_packet_size}

-- What SendPacket is to put on the wire: the bytes, and a zero byte behind them if their number is a
-- multiple of the largest chunk.
abbrev pub frame : List ℕ → List ℕ
frame bytes = if length bytes % max_net_packet_size == 0 then bytes ++ (0 ∷ []) else bytes

pub frame-append :
    (chunk rest : List ℕ)
    → length chunk ≡ max_net_packet_size
    → frame (chunk ++ rest) ≡ chunk ++ frame rest
frame-append chunk rest e = elim (Bool-cases (length rest % max_net_packet_size == 0)) [
  | inl z ↦ rw same (rw z (append_assoc chunk rest (0 ∷ [])))
  | inr z ↦ rw same (rw z)
]
  where
    same : length (chunk ++ rest) % max_net_packet_size ≡ length rest % max_net_packet_size
    same = omega (arith, length-append chunk rest)

pub frame_short :
    (rest : List ℕ) → 0 < length rest → length rest < max_net_packet_size → frame rest ≡ rest
frame_short rest some_bytes short = rw not_multiple
  where
    not_multiple : (length rest % max_net_packet_size == 0) ≡ false
    not_multiple = ground arith

pub load_exact :
    (bytes pre mid post : List ℕ) (written n : ℕ)
    → bytes ≡ pre ++ (mid ++ post)
    → written ≡ length pre
    → n ≡ length mid
    → load bytes written n ≡ some mid
load_exact bytes pre mid post written n e f g = rw (e, f, g) (load-append pre mid post)

pub load_chunk :
    (bytes pre rest : List ℕ) (written n : ℕ)
    → bytes ≡ pre ++ rest
    → written ≡ length pre
    → n ≤ length rest
    → load bytes written n ≡ some (take n rest)
load_chunk bytes pre rest written n e f h =
    load_exact bytes pre (take n rest) (drop n rest) written n
      (e ∙ ap (λ (t : List ℕ). pre ++ t) (sym (take-append-drop n rest))) f
      (omega (arith, length-take n rest))

pub not_zero : (n : ℕ) → 0 < n → (n == 0) ≡ false
not_zero n h = ground arith

pub nil_of_length : (xs : List ℕ) → length xs ≡ 0 → xs ≡ []
nil_of_length [] e = refl
nil_of_length (x ∷ xs) e = absurd (omega arith)
