-- ===== src/Api/Answer.antt =====
-- What a handler answers: a status, and a body or the message of an error.
use open_mamba.Base.{ℕ, String}
use open_mamba.Lake.Exec.{Exec, pure, catch}

pub data Answer (A : Type 0) : Type 0 where
  answer : ℕ → A → Answer A
  refused : ℕ → String → Answer A

abbrev pub status_of : {A : Type 0} → Answer A → ℕ
status_of (answer s a) = s
status_of (refused s e) = s

-- `lake_response`, and the many handlers that spell it out: a value, or 500 with the error.
abbrev pub lake_response : {A : Type 0} → Exec A → Exec (Answer A)
lake_response m = catch m (λ a. pure (answer 200 a)) (λ e. pure (refused 500 e))

-- A value with its own status, or 500 with the error.
abbrev pub or_500 : {A B : Type 0} → Exec A → (A → Exec (Answer B)) → Exec (Answer B)
or_500 m f = catch m f (λ e. pure (refused 500 e))
