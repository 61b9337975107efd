-- ===== src/Netchannel/Pair/Wrap.antt =====
-- The boundaries of a byte ring: which messages would cross one, and the pads that avoid it.
use native.Mathlib.Nat.{
  mod-mod_of_dvd, mod-eq_of_lt, mod-lt, div-add-mod, add-mul-mod_self_left, mod_self,
}
use winservice.Base.{
  ℕ, ◌+◌, ◌-◌, ◌*◌, ◌/◌, ◌%◌, ◌≤◌, ◌<◌, ◌≡◌, ◌⊎◌, ap, ◌∙◌, inl, inr, Bool-cases, ltb, leb, arith,
}
use winservice.Base.Words.{add32}
use winservice.Base.PowerOfTwo.{
  IsSize, size-pos, size-le, size-whole, low_bits, high_bits, round_left,
}
use winservice.Netchannel.Pair.{RingPair, ring_would_wrap, pad_needed, get_message_ptr}

module _ {n : ℕ} (size : IsSize n) where
  -- The start of the round that a word is in.
  start-add_short :
      (w m : ℕ) → w + m < 4294967296 → w % n + m < n → add32 w m - add32 w m % n ≡ w - w % n
  start-add_short w m lt near =
      let same : add32 w m ≡ (w % n + m) + n * (w / n) = omega (arith, div-add-mod w n) in
      let off : add32 w m % n ≡ w % n + m =
        ap (λ k. k % n) same ∙ add-mul-mod_self_left (w % n + m) n (w / n) ∙ mod-eq_of_lt near in
      omega (arith, off, same, div-add-mod w n)

  start-add_long :
      (w m : ℕ)
      → w < 4294967296
      → m ≤ n
      → n ≤ w % n + m
      → w - w % n < add32 w m - add32 w m % n ⊎ (add32 w m - add32 w m % n < w - w % n)
  start-add_long w m lt le far =
      let pos = size-pos size in
      let small = size-le size in
      elim (Bool-cases (ltb (w + m) 4294967296)) [
        | inl e ↦
            let same : add32 w m ≡ w + m = ground (arith, e) in
            inl (omega (arith, same, mod-lt (add32 w m) pos, mod-lt w pos))
        | inr e ↦
            let over : 4294967296 ≤ w + m = ground (arith, e) in
            let below : add32 w m < n = omega (arith, over, small) in
            inr (omega (arith, mod-eq_of_lt below, mod-lt w pos, over, small))
      ]

  pub ring_would_wrap-eq :
      (ring : RingPair) (m : ℕ)
      → ring.producer_payload_bytes ≡ n
      → ring.local_prod_pvt < 4294967296
      → m ≤ n
      → ring_would_wrap ring m ≡ leb n (ring.local_prod_pvt % n + m)
  unfolding ring_would_wrap
  ring_would_wrap-eq ring m bytes word le =
      let w = ring.local_prod_pvt in
      let here = high_bits size w word in
      let there = high_bits size (add32 w m) (omega arith) in
      rw (bytes, here, there)
        (elim (Bool-cases (leb n (w % n + m))) [
          | inl e ↦ elim (start-add_long w m word le (ground (arith, e))) [
            | inl lt ↦ ground (arith, lt, e)
            | inr gt ↦ ground (arith, gt, e)
          ]
          | inr e ↦
              let near : w % n + m < n = ground (arith, e) in
              let inside : w + m < 4294967296 = omega (arith, round_left size w word, near) in
              ground (arith, start-add_short w m inside near, e)
        ])

  pub get_message_ptr-eq :
      (ring : RingPair)
      → ring.producer_payload_bytes ≡ n
      → get_message_ptr ring ≡ ring.local_prod_pvt % n
  unfolding get_message_ptr
  get_message_ptr-eq ring bytes = rw bytes (low_bits size ring.local_prod_pvt)

  pub pad_needed-eq :
      (ring : RingPair)
      → ring.producer_payload_bytes ≡ n
      → n < 65536
      → pad_needed ring ≡ n - ring.local_prod_pvt % n
  unfolding pad_needed
  pad_needed-eq ring bytes small =
      rw (bytes, low_bits size ring.local_prod_pvt)
        (omega (arith, mod-lt ring.local_prod_pvt (size-pos size), small))

  -- Behind a pad comes the beginning of the ring.
  pub padded-start : (w : ℕ) → w < 4294967296 → add32 w (n - w % n) % n ≡ 0
  padded-start w lt =
      let pos = size-pos size in
      let next : w + (n - w % n) ≡ n + n * (w / n) = omega (arith, div-add-mod w n, mod-lt w pos) in
      mod-mod_of_dvd n {b = 4294967296} (w + (n - w % n)) (size-whole size)
      ∙ ap (λ k. k % n) next
      ∙ add-mul-mod_self_left n n (w / n)
      ∙ mod_self n
