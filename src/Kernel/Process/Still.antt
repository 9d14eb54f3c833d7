-- ===== src/Kernel/Process/Still.antt =====
-- The calls of Reference/Linux-0.11-main/kernel/symplus/process.c that wait leave the interrupts alone.
use linux_0_11_symcc_on_turi.Base.{
  ℕ, ◌≡◌, ◌⊎◌, inl, inr, refl, sym, Bool, false, not, ◌&&◌, ◌||◌, ◌==◌, List, [], ◌∷◌, leb, ltb,
  ◌^◌,
}
use mathlib.Core.Path.{subst}
use linux_0_11_symcc_on_turi.Kernel.Process.State.{Kernel, is_zombie, efault, ebadf}
use linux_0_11_symcc_on_turi.Kernel.Process.Tasks.{
  slots, current, is_awaited, reap, wait_loop, wait_current, any_child,
}
use linux_0_11_symcc_on_turi.Kernel.Process.Users.{sp_user_range}
use linux_0_11_symcc_on_turi.Kernel.Process.Kept.{either}
use linux_0_11_symcc_on_turi.Kernel.Process.System.{System, Platform, sys_read}
use linux_0_11_symcc_on_turi.Kernel.Process.Calls.{
  read, waitpid, call_in, call_of, invoke, read_line, on_kernel, perform_call, perform,
}

module _ {Files World : Type 0} where
  module _ (p : Platform Files World) where
    -- `read` and `wait` interrupt nothing.
    pub record Still (k : Kernel Files World) (r : ℕ × System Files World) : Type 0 where
      pub interrupted : r.1.kernel.interrupted ≡ k.interrupted
      pub deferred : r.1.kernel.deferred ≡ k.deferred

    still : (s : System Files World) (e : ℕ) → Still s.kernel (e, s)
    still s e = record { interrupted = refl; deferred = refl }

    wait_loop-Still :
        (k : Kernel Files World) (pid status options : ℕ) (found : Bool) (is : List ℕ)
        (s : System Files World)
        → Still k (on_kernel p s (wait_loop k pid status options found is))
    unfolding wait_loop reap
    wait_loop-Still k pid status options found [] s = record { interrupted = refl; deferred = refl }
    wait_loop-Still k pid status options found (i ∷ is) s =
        either {A = ℕ × Kernel Files World} (λ r. Still k (on_kernel p s r))
          (is_awaited k pid i && is_zombie (k.process i).state) (reap k status i) _
          (record { interrupted = refl; deferred = refl })
          (wait_loop-Still k pid status options (found || is_awaited k pid i) is s)

    read-Still : (s : System Files World) (a b c : ℕ) → Still s.kernel (perform_call p s read a b c)
    unfolding perform_call read_line invoke
    read-Still s a b c =
        let P : ℕ × System Files World → Type 0 = Still s.kernel in
        either P (not (sp_user_range b c)) (efault, s) _ (still s efault)
          (either P (leb 20 a || not (p.has_file (current s.kernel).files a)) (ebadf, s) _
            (still s ebadf)
            (either P (p.is_char (current s.kernel).files s.kernel.world a) (read_line p s b c)
              (invoke p s sys_read a b c) (record { interrupted = refl; deferred = refl })
              (record { interrupted = refl; deferred = refl })))

    wait-Still :
        (s : System Files World) (a b c : ℕ) → Still s.kernel (perform_call p s waitpid a b c)
    unfolding perform_call wait_current
    wait-Still s a b c =
        let P : ℕ × System Files World → Type 0 = Still s.kernel in
        let Q : ℕ × Kernel Files World → Type 0 = λ r. Still s.kernel (on_kernel p s r) in
        either P (not (b == 0) && not (sp_user_range b 4)) (efault, s) _ (still s efault)
          (either Q (not (a == any_child) && ((a == 0) || leb (2 ^ 31) a)) _ _
            (record { interrupted = refl; deferred = refl })
            (either Q (ltb 1 c) _ _ (record { interrupted = refl; deferred = refl })
              (wait_loop-Still s.kernel a b c false slots s)))

    pub perform-Still :
        (s : System Files World) (nr a b c : ℕ)
        → (nr ≡ 3) ⊎ (nr ≡ 7)
        → Still s.kernel (perform p s nr a b c)
    unfolding perform call_of call_in
    perform-Still s nr a b c (inl e) =
        subst (λ n. Still s.kernel (perform p s n a b c)) (sym e) (read-Still s a b c)
    perform-Still s nr a b c (inr e) =
        subst (λ n. Still s.kernel (perform p s n a b c)) (sym e) (wait-Still s a b c)
