-- ===== src/Base/Results.antt =====
-- The result of a method that may throw an exception, with the state that it leaves.
pub data Result (S A : Type 0) : Type 0 where
  ok : A → S → Result S A
  throw : S → Result S A

infixl 5 ◌>>=◌
abbrev pub ◌>>=◌ : {S A B : Type 0} → Result S A → (A → S → Result S B) → Result S B
ok a m >>= f = f a m
throw m >>= f = throw m
