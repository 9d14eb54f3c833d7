-- ===== src/Kernel/Exec/Handover.antt =====
-- What a new program finds when `sp_execve` (Reference/Linux-0.11-main/fs/symexec.c) has started it.
use linux_0_11_symcc_on_turi.Base.{
  ℕ, ◌+◌, ◌-◌, ◌%◌, ◌<◌, ◌≤◌, ◌≡◌, ◌⊎◌, inl, inr, refl, sym, ◌∙◌, ap, arith, true, false, ◌&&◌, leb,
  ltb, if◌then◌else◌, length,
}
use mathlib.Core.Path.{subst}
use linux_0_11_symcc_on_turi.Base.Word.{u32}
use linux_0_11_symcc_on_turi.Emu.State.{Memory, rd32}
use linux_0_11_symcc_on_turi.Kernel.Process.State.{Task, Context, sp_user_base, sp_user_size}
use linux_0_11_symcc_on_turi.Kernel.Process.System.{ExecAnswer}
use linux_0_11_symcc_on_turi.Kernel.Process.Dispatch.{exec_done}
use linux_0_11_symcc_on_turi.Kernel.Exec.Arguments.{Copied}
use linux_0_11_symcc_on_turi.Kernel.Exec.Image.{
  align4, new_image, zeroed, copy_in, strings_at, envp_at, argv_at, stack_at,
}
use linux_0_11_symcc_on_turi.Kernel.Exec.Load.{Loader, sp_execve}
use linux_0_11_symcc_on_turi.Kernel.Exec.Given.{Given}
use linux_0_11_symcc_on_turi.Kernel.Exec.Layout.{
  Small, places, below_stack, new_image-argv, new_image-envp, new_image-strings,
  new_image-arguments,
}
use linux_0_11_symcc_on_turi.Kernel.Exec.Words.{copy_in_get, copy_in_frame}
use linux_0_11_symcc_on_turi.Kernel.Exec.Same.{SameArguments, same_arguments}
use linux_0_11_symcc_on_turi.Kernel.Exec.Commit.{Started, Unchanged, sp_execve-Whole}

-- The stack pointer is at the three words that the entry of a program takes for `main`: the number of the arguments and
-- two vectors whose strings are the caller's.
pub record Arguments (old new : Memory) (argv envp sp : ℕ) : Type 0 where
  pub envc : ℕ
  pub argv_same : SameArguments old new argv (rd32 new (sp + 4)) (rd32 new sp)
  pub envp_same : SameArguments old new envp (rd32 new (sp + 8)) envc

-- The entry is a word of the window, the stack pointer a word of the reserved stack, and the heap is empty and ends below it.
pub record Bounds (pc sp brk start_stack : ℕ) : Type 0 where
  pub pc_aligned : pc % 4 ≡ 0
  pub pc_inside : (sp_user_base ≤ pc) × (pc < brk)
  pub heap_end : brk ≤ start_stack
  pub stack_inside : (start_stack ≤ sp) × (sp ≤ sp_user_base + sp_user_size)
  pub sp_aligned : sp % 4 ≡ 0

small : {window : Memory} {argv envp : ℕ} {c : Copied} → Given window argv envp c → Small c
small g = record { room = g.room; argv_count = g.argv_count; envp_count = g.envp_count }

module _ (window stage : Memory) (loaded argv envp : ℕ) (c : Copied)
    (g : Given window argv envp c) where
  handed : Arguments window (new_image window stage loaded c) argv envp (stack_at c)
  handed =
      let pl = places c (small g) in
      let new = new_image window stage loaded c in
      let words = new_image-arguments window stage loaded c pl (omega (arith, g.argv_count)) in
      let stored = new_image-strings window stage loaded c pl in
      let above : stack_at c + 4 + 4 ≡ stack_at c + 8 = omega arith in
      record {
        envc = length c.envp;
        argv_same =
            subst (λ n. SameArguments window new argv (rd32 new (stack_at c + 4)) n) (sym words.0)
              (subst (λ q. SameArguments window new argv q (length c.argv)) (sym words.1.0)
                (same_arguments window new c.strings (strings_at c) stored
                  (omega (arith, pl.strings_end, g.room)) (omega (arith, pl.strings_end)) argv
                  (argv_at c) c.argv g.argv_listed (new_image-argv window stage loaded c pl)));
        envp_same =
            subst (λ q. SameArguments window new envp q (length c.envp))
              (sym (ap (rd32 new) (sym above) ∙ words.1.1.0))
              (same_arguments window new c.strings (strings_at c) stored
                (omega (arith, pl.strings_end, g.room)) (omega (arith, pl.strings_end)) envp
                (envp_at c) c.envp g.envp_listed (new_image-envp window stage loaded c pl));
      }

module _ {Files World : Type 0} (window : Memory) (argv envp : ℕ) where
  pub record HandedOver (r : ExecAnswer Files World) : Type 0 where
    pub arguments : Arguments window r.answer.window argv envp (r.context.regs 14)
    pub bounds : Bounds r.context.pc (r.context.regs 14) r.brk r.start_stack

  Started-HandedOver :
      (ctx : Context) (r : ExecAnswer Files World) → Started window ctx argv envp r → HandedOver r
  Started-HandedOver ctx r s =
      let c = s.copied in
      let h = s.header in
      let f = s.fits in
      let pl = places c (small s.given) in
      let sp : stack_at c ≡ r.context.regs 14 = ap (λ k. k.regs 14) (sym s.context_new) in
      let pc : r.context.pc ≡ u32 (sp_user_base + h.entry) = ap (λ k. k.pc) s.context_new in
      let brk : r.brk ≡ u32 (sp_user_base + align4 (h.loaded + h.bss)) =
        s.brk_new ∙ s.end_data_new in
      record {
        arguments =
            subst (λ w. Arguments window w argv envp (r.context.regs 14)) (sym s.window_new)
              (subst (λ x. Arguments window (new_image window s.program h.loaded c) argv envp x) sp
                (handed window s.program h.loaded argv envp c s.given));
        bounds = record {
          pc_aligned = omega (arith, pc, f.entry_inside, f.entry_aligned, f.stack_fits);
          pc_inside = (
            omega (arith, pc, f.entry_inside, f.stack_fits),
            omega (arith, pc, brk, f.entry_inside, f.stack_fits, f.heap_fits),
          );
          heap_end = omega (arith, brk, s.start_stack_new, f.heap_fits, f.stack_fits);
          stack_inside = (
            omega (arith, sp, pl.high, s.start_stack_new, f.stack_min, f.stack_fits),
            omega (arith, sp, pl.stack_end, pl.argv_end, pl.envp_end, pl.strings_end),
          );
          sp_aligned = omega (arith, sp, pl.aligned);
        };
      }

-- When the result of `sp_execve` is the one of success, the stack pointer is at the number of the arguments and at two
-- vectors whose strings are, one by one and up to the NULL, those that the caller's vectors had before (an empty
-- vector for one that was NULL); the entry, the heap and the stack keep to their parts of the window.
pub sp_execve-HandedOver :
    {Files World : Type 0} (l : Loader Files World) (path argv envp : ℕ) (task : Task Files)
    (world : World) (window : Memory) (ctx : Context)
    → (sp_execve l path argv envp task world window ctx).answer.result ≡ exec_done
    → HandedOver window argv envp (sp_execve l path argv envp task world window ctx)
sp_execve-HandedOver l path argv envp task world window ctx done =
    either_way (sp_execve-Whole l path argv envp task world window ctx)
  where
    either_way :
        Unchanged task window ctx (sp_execve l path argv envp task world window ctx)
          ⊎ Started window ctx argv envp (sp_execve l path argv envp task world window ctx)
        → HandedOver window argv envp (sp_execve l path argv envp task world window ctx)
    either_way (inl u) = absurd (u.result done)
    either_way (inr s) =
        Started-HandedOver window argv envp ctx (sp_execve l path argv envp task world window ctx) s

-- A user window in which nothing but a program stands.
abbrev pub fresh : Memory → Memory → ℕ → Memory
fresh window program loaded a =
    if leb sp_user_base a && ltb a (sp_user_base + sp_user_size)
    then (if ltb a (sp_user_base + loaded) then program (a - sp_user_base) else 0)
    else window a

copied_in :
    (window program : Memory) (loaded a : ℕ)
    → loaded ≤ sp_user_size
    → copy_in (zeroed window) sp_user_base program loaded a ≡ fresh window program loaded a
copied_in window program loaded a fits =
    elim (leb sp_user_base a && ltb a (sp_user_base + loaded))
        as (λ b.
          (leb sp_user_base a && ltb a (sp_user_base + loaded)) ≡ b
          → copy_in (zeroed window) sp_user_base program loaded a ≡ fresh window program loaded a) [
            | true ↦ λ e.
                let i : sp_user_base + (a - sp_user_base) ≡ a = ground (arith, e) in
                let inside : fresh window program loaded a ≡ program (a - sp_user_base) =
                  ground (arith, e) in
                ap (copy_in (zeroed window) sp_user_base program loaded) (sym i)
                ∙ (copy_in_get loaded (zeroed window) program sp_user_base (a - sp_user_base)
                      (ground (arith, e))
                    ∙ sym inside)
            | false ↦ λ e.
                let behind : zeroed window a ≡ fresh window program loaded a = ground (arith, e) in
                copy_in_frame loaded (zeroed window) program sp_user_base a (ground (arith, e))
                ∙ behind
          ]
      refl

-- In the new image, the bytes of the program stand from the bottom of the user window on, zeros up to the stack pointer,
-- and nothing outside the window changes, if the program leaves room for the smallest stack and the strings were copied within the
-- limits.
pub new_image-fresh :
    (window program : Memory) (loaded : ℕ) (c : Copied) (a : ℕ)
    → Small c
    → loaded + 16384 ≤ sp_user_size
    → (a < stack_at c) ⊎ (sp_user_base + sp_user_size ≤ a)
    → new_image window program loaded c a ≡ fresh window program loaded a
new_image-fresh window program loaded c a s fits h =
    below_stack window program loaded c (places c s) a h
    ∙ copied_in window program loaded a (omega (arith, fits))
