-- ===== src/Instance/Ring.antt =====
-- Lemmas on the buffer of instance.go.
use postgrest_conformance.Base.{
  ℕ, ◌-◌, ◌≤◌, List, [], ◌∷◌, ◌++◌, append_assoc, ◌≡◌, refl, sym, ap, ◌∙◌, arith, ltb, length, drop,
  length-append, length-drop, drop-append_le, drop-drop, drop-nil, append-nil, Bool-cases, inl, inr,
}
use postgrest_conformance.Base.Text.{Bytes}
use postgrest_conformance.Instance.{RingBuffer, new_ring_buffer, write}

-- The last `n` bytes of a text, or all of it.
abbrev pub tail_of : ℕ → Bytes → Bytes
tail_of n s = drop (length s - n) s

-- All that a process writes, one call of `Write` after the other.
pub write_each : RingBuffer → List Bytes → RingBuffer
write_each r [] = r
write_each r (p ∷ ps) = write_each (write r p).0 ps

-- What the calls wrote, in order.
pub written : List Bytes → Bytes
written [] = []
written (p ∷ ps) = p ++ written ps

write-tail : (r : RingBuffer) (p : Bytes) → (write r p).0.buf ≡ tail_of r.max (r.buf ++ p)
unfolding write
write-tail r p = elim (Bool-cases (ltb r.max (length (r.buf ++ p)))) [
  | inl large ↦ rw large
  | inr small ↦
      let none_to_drop : length (r.buf ++ p) - r.max ≡ 0 = ground arith in rw (small, none_to_drop)
]

write-max : (r : RingBuffer) (p : Bytes) → (write r p).0.max ≡ r.max
unfolding write
write-max r p = refl

-- the last bytes of a text whose front was cut to its own last bytes
tail_of-append : (n : ℕ) (s p : Bytes) → tail_of n (tail_of n s ++ p) ≡ tail_of n (s ++ p)
tail_of-append n s p =
    let cut : ℕ = length s - n in
    let inside : cut ≤ length s = omega arith in
    let whole : drop cut s ++ p ≡ drop cut (s ++ p) = sym (drop-append_le cut s p inside) in
    rw whole (
      drop-drop (length (drop cut (s ++ p)) - n) cut (s ++ p)
      ∙ ap (λ k. drop k (s ++ p)) (omega (arith, length-drop cut (s ++ p), length-append s p)))

write_each-tail :
    (r : RingBuffer) (ps : List Bytes) (s : Bytes)
    → r.buf ≡ tail_of r.max s
    → (write_each r ps).buf ≡ tail_of r.max (s ++ written ps)
unfolding write_each written write
write_each-tail r [] s h = rw append-nil h
write_each-tail r (p ∷ ps) s h =
    let step : (write r p).0.buf ≡ tail_of (write r p).0.max (s ++ p) =
      write-tail r p ∙ rw (h, write-max r p) (tail_of-append r.max s p) in
    rw (write-max r p) at (rw append_assoc at (write_each-tail (write r p).0 ps (s ++ p) step))

-- After any sequence of writes the buffer holds the last `max` bytes of everything written, or all
-- of it if it is no longer than that; so it is never longer than `max`.
pub write_each-new :
    (max : ℕ) (ps : List Bytes)
    → ((write_each (new_ring_buffer max) ps).buf ≡ tail_of max (written ps))
      × (length (write_each (new_ring_buffer max) ps).buf ≤ max)
unfolding new_ring_buffer
write_each-new max ps =
    let last : (write_each (new_ring_buffer max) ps).buf ≡ tail_of max (written ps) =
      write_each-tail (new_ring_buffer max) ps [] (sym (drop-nil (0 - max))) in
    (last, rw last (omega (arith, length-drop (length (written ps) - max) (written ps))))
