-- ===== src/Api/Limits.antt =====
-- The limit of a `Storage`, which is a `size_t` in the public interface and an `int` behind it.
use tracebox.Prelude.{
  ℕ, suc, ◌+◌, ◌-◌, ◌^◌, ◌<◌, ◌≤◌, ◌≡◌, sym, ap, ◌∙◌, negsuc, ℤ, int32, size_of_int, int32-small,
  arith,
}
use tracebox.Storage.{Backend, started, open_storage, shrink, begin, sub_size}
use tracebox.Storage.Accounting.{Removes, open_storage-balance, shrink-stop}
use tracebox.Api.{new_storage}

-- A limit from 2 GiB to 4 GiB becomes a `size_t` that is next to the largest.
size_of_int-int32 :
    (n : ℕ) → 2 ^ 31 ≤ n → n < 2 ^ 32 → size_of_int (int32 n) ≡ n + (2 ^ 64 - 2 ^ 32)
size_of_int-int32 n low high = ap size_of_int negative ∙ omega arith
  where
    negative : int32 n ≡ negsuc (2 ^ 32 - n - 1)
    negative = ground arith

sub_size-exact :
    (n used : ℕ)
    → 2 ^ 31 ≤ n
    → n < 2 ^ 32
    → used < 2 ^ 63
    → sub_size (n + (2 ^ 64 - 2 ^ 32)) used ≡ n + (2 ^ 64 - 2 ^ 32) - used
sub_size-exact n used low high small = omega arith

module _ (b : Backend) where
  -- A `Storage` of the public interface with a limit from 2 GiB to less than 4 GiB, over a backend
  -- that uses less than 2^63 bytes, is started without removing anything, with nearly 2^64 bytes
  -- available: the limit plus 2^64 - 2^32, less what is used.
  pub new_storage-unlimited :
      (fuel n : ℕ) (s : b.State)
      → 2 ^ 31 ≤ n
      → n < 2 ^ 32
      → b.used_bytes s < 2 ^ 63
      → new_storage b (suc fuel) n s ≡ started (n + (2 ^ 64 - 2 ^ 32) - b.used_bytes s) s
  unfolding new_storage open_storage
  new_storage-unlimited fuel n s low high used =
      ap (λ (limit : ℕ). begin b (b.used_bytes s) (shrink b (suc fuel) (b.used_bytes s) limit s))
        (size_of_int-int32 n low high)
      ∙ ap (begin b (b.used_bytes s))
          (shrink-stop b fuel (b.used_bytes s) (n + (2 ^ 64 - 2 ^ 32)) s (ground arith))
      ∙ ap (λ (left : ℕ). started left s) (sub_size-exact n (b.used_bytes s) low high used)

  -- X
  pub new_storage-limited :
      (law : Removes b) (fuel n a : ℕ) (s s' : b.State)
      → n < 2 ^ 31
      → b.used_bytes s < 2 ^ 63
      → new_storage b fuel n s ≡ started a s'
      → b.used_bytes s' ≤ n
  unfolding new_storage
  new_storage-limited law fuel n a s s' low used e = omega (
    arith,
    open_storage-balance b law fuel n a s s' low (omega arith)
        (ap (λ (z : ℤ). open_storage b fuel z s) (sym (int32-small n low)) ∙ e),
  )
