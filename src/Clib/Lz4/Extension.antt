-- ===== src/Clib/Lz4/Extension.antt =====
-- The length extensions: what is read back, and how long they are.
use aev_os.Common.{
  false, ℕ, zero, suc, ◌+◌, ◌-◌, ◌≤◌, ◌≡◌, ap, ◌∙◌, List, [], ◌∷◌, ◌++◌, leb, ◌==◌, arith, length,
  Bool-cases, inl, inr,
}
use aev_os.Clib.Lz4.{ext_bytes, extension, nibble, read_ext, read_length}

read_ext-ext_bytes :
    (fuel rem len : ℕ) (rest : List ℕ)
    → rem ≤ fuel
    → read_ext len (ext_bytes fuel rem ++ rest) ≡ (len + rem, rest)
unfolding ext_bytes read_ext
read_ext-ext_bytes zero rem len rest h = ground arith
read_ext-ext_bytes (suc fuel) rem len rest h = elim (Bool-cases (leb 255 rem)) [
  | inl e ↦ rw e (
      read_ext-ext_bytes fuel (rem - 255) (len + 255) rest (omega arith)
      ∙ ap (λ (n : ℕ). (n, rest)) (let z : len + 255 + (rem - 255) ≡ len + rem = ground arith in z))
  | inr e ↦ rw e (ground arith)
]

-- A length written as header and extension is read back; `base` is added to it.
pub read_length-extension :
    (n base k : ℕ) (rest : List ℕ)
    → k ≡ nibble n + base
    → read_length (nibble n) k (extension n ++ rest) ≡ (n + base, rest)
unfolding read_length extension
read_length-extension n base k rest h = elim (Bool-cases (leb 15 n)) [
  | inl e ↦
      let h' : k ≡ 15 + base = ground arith in
      rw e (
        read_ext-ext_bytes (n - 15) (n - 15) k rest (omega arith)
        ∙ ap (λ (m : ℕ). (m, rest)) (let z : k + (n - 15) ≡ n + base = ground arith in z))
  | inr e ↦
      let h' : k ≡ n + base = ground arith in
      let z : (n == 15) ≡ false = ground arith in rw (e, z) (ap (λ (m : ℕ). (m, rest)) h')
]

length-read_ext : (len : ℕ) (inp : List ℕ) → length (read_ext len inp).1 ≤ length inp
unfolding read_ext
length-read_ext len [] = omega arith
length-read_ext len (b ∷ inp) = ground (arith, length-read_ext (len + b) inp)

-- Reading a length does not lengthen the input.
pub length-read_length :
    (header len : ℕ) (inp : List ℕ) → length (read_length header len inp).1 ≤ length inp
unfolding read_length
length-read_length header len inp = ground (arith, length-read_ext len inp)
