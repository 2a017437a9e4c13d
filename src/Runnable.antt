-- ===== src/Runnable.antt =====
-- comm/mtaf_runnable.h: what a thread runs. A callable is what it does to a state `S` of the program;
-- objects that are called through a pointer are looked up when they run.
use mtappender_file.Prelude.{ℕ, ◌≡◌, refl}

module _ {ℓ} (S : Type ℓ) where
  -- The functors and the runnables that stand in memory, by address.
  pub record Objects : Type ℓ where
    pub functor_at : ℕ → S → S
    pub runnable_at : ℕ → ℕ → S → S

  -- What `transform` accepts: a functor, a pointer to one, a pointer to a runnable, or a function of
  -- one argument.
  pub data Callable : Type ℓ where
    functor : (S → S) → Callable
    functor_pointer : ℕ → Callable
    runnable_pointer : ℕ → Callable
    arg_function : (ℕ → S → S) → Callable

  -- `RunnableFunctor` in its three forms that can be built, and `RunnableArgFunctor`.
  pub data Runnable : Type ℓ where
    runnable_functor : (S → S) → Runnable
    runnable_functor_pointer : ℕ → Runnable
    runnable_forward : ℕ → Runnable
    runnable_arg_functor : (ℕ → S → S) → Runnable

  -- `transform`.
  pub transform : Callable → Runnable
  transform (functor f) = runnable_functor f
  transform (functor_pointer p) = runnable_functor_pointer p
  transform (runnable_pointer p) = runnable_forward p
  transform (arg_function f) = runnable_arg_functor f

  -- `run(arg)`.
  pub run : Objects → Runnable → ℕ → S → S
  run o (runnable_functor f) arg s = f s
  run o (runnable_functor_pointer p) arg s = o.functor_at p s
  run o (runnable_forward p) arg s = o.runnable_at p arg s
  run o (runnable_arg_functor f) arg s = f arg s

  -- What the caller of `transform` means to be done with the argument.
  abbrev pub meant : Objects → Callable → ℕ → S → S
  meant o (functor f) arg = f
  meant o (functor_pointer p) arg = o.functor_at p
  meant o (runnable_pointer p) arg = o.runnable_at p arg
  meant o (arg_function f) arg = f arg

  -- A transformed callable does what is meant, with the objects as they are when it runs.
  run-transform :
      (o : Objects) (c : Callable) (arg : ℕ) (s : S) → run o (transform c) arg s ≡ meant o c arg s
  unfolding run transform
  run-transform o (functor f) arg s = refl
  run-transform o (functor_pointer p) arg s = refl
  run-transform o (runnable_pointer p) arg s = refl
  run-transform o (arg_function f) arg s = refl
