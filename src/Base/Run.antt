-- ===== src/Base/Run.antt =====
-- What a call of kernel code comes to: error numbers, panics, and state passed along.

-- The error numbers of kern/include/kern/errno.h that the modelled code returns.
pub data Errno : Type 0 where
  enosys enomem enoent eexist einval efault enospc efbig eio enametoolong enodev : Errno

-- A computation that a failing KASSERT or a call of panic() may stop.
pub data Checked {ℓ} (A : Type ℓ) : Type ℓ where
  value : A → Checked A
  panic : Checked A

-- A call on a state: it returns 0 (and hands back a value), returns an error number, panics, or
-- has to wait for another thread before it can go on.
-- The state is there on an error too: C keeps what was written before the error.
pub data Run (S A : Type 0) : Type 0 where
  done : A → S → Run S A
  fail : Errno → S → Run S A
  panicked blocked : Run S A

abbrev pub Cmd : Type 0 → Type 0 → Type 0
Cmd S A = S → Run S A

module _ {S A B : Type 0} where
  abbrev pub and_then : Run S A → (A → Cmd S B) → Run S B
  and_then (done a s) k = k a s
  and_then (fail e s) k = fail e s
  and_then panicked k = panicked
  and_then blocked k = blocked

  -- `result = m(); if (result) { return result; }`
  infixl 5 ◌>>=◌
  abbrev pub ◌>>=◌ : Cmd S A → (A → Cmd S B) → Cmd S B
  m >>= k = λ s. and_then (m s) k

module _ {S B : Type 0} where
  infixl 5 ◌>>◌
  abbrev pub ◌>>◌ : Cmd S (Unit {0}) → Cmd S B → Cmd S B
  m >> k = m >>= λ _. k

-- The call neither panics nor waits; `P` holds of what it returns and `E` of how it fails.
pub data Ensures {S A : Type 0} (P : A → S → Type 0) (E : Errno → S → Type 0)
    : Run S A → Type 0 where
  returns : {a : A} {s : S} → P a s → Ensures P E (done a s)
  fails : {e : Errno} {s : S} → E e s → Ensures P E (fail e s)

module _ {S A B : Type 0} {P : A → S → Type 0} {E F : Errno → S → Type 0} where
  pub bind :
      {Q : B → S → Type 0} {r : Run S A} {k : A → Cmd S B}
      → Ensures P E r
      → ((a : A) (s : S) → P a s → Ensures Q F (k a s))
      → ((e : Errno) (s : S) → E e s → F e s)
      → Ensures Q F (and_then r k)
  bind (returns p) next weaken = next _ _ p
  bind (fails e) next weaken = fails (weaken _ _ e)

module _ {S A : Type 0} {P : A → S → Type 0} {E F : Errno → S → Type 0} where
  pub mono :
      {Q : A → S → Type 0} {r : Run S A}
      → Ensures P E r
      → ((a : A) (s : S) → P a s → Q a s)
      → ((e : Errno) (s : S) → E e s → F e s)
      → Ensures Q F r
  mono (returns p) weaken weaken_error = returns (weaken _ _ p)
  mono (fails e) weaken weaken_error = fails (weaken_error _ _ e)
