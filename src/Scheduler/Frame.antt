-- ===== src/Scheduler/Frame.antt =====
-- The stack that `sched_prepare_kernel_thread` of src/kernel/process/scheduler.c builds.
use minidos.Common.{ℕ, ◌+◌, ◌-◌, ◌*◌, ◌/◌, ◌^◌, ◌<◌, ◌≤◌, ◌≡◌, ◌⊎◌, ◌∙◌, ap, get_or, sub32, arith}
use minidos.Memory.{
  Memory, write, write_self, write_ne, write_words, write_words_at, write_words_outside, zero_words,
  zero_words_at, zero_words_outside,
}
use minidos.Process.{stack_bytes}
use minidos.Scheduler.{Linkage, prepare_stack, thread_frame, frame_bytes}

-- A stack from `base` up to `top` on which a thread has not yet run: the frame that an interrupt
-- return resumes, with interrupts on and at the bootstrap of threads, below the address that the
-- bootstrap returns to, and zeros under the frame.
pub record HasFrame (l : Linkage) (m : Memory) (base top : ℕ) : Type 0 where
  pub words : (k : ℕ) → k < 17 → m (top - 72 + 4 * k) ≡ get_or (thread_frame l) k 0
  pub resumes_at : m (top - 16) ≡ l.thread_bootstrap
  pub code_segment : m (top - 12) ≡ 0x08
  pub flags : m (top - 8) ≡ 0x202
  pub returns_to : m (top - 4) ≡ l.thread_exit_trampoline
  pub cleared : (k : ℕ) → base + 4 * k < top - 72 → m (base + 4 * k) ≡ 0

pub prepare_stack_outside :
    (l : Linkage) (m : Memory) (base top b : ℕ)
    → top ≡ base + stack_bytes
    → top < 2 ^ 32
    → (b < base) ⊎ (top ≤ b)
    → prepare_stack l m base top b ≡ m b
unfolding prepare_stack
prepare_stack_outside l m base top b e lt h =
    write_words_outside _ (sub32 top (4 + frame_bytes)) _ b (omega arith)
    ∙ (write_ne _ (sub32 top 4) l.thread_exit_trampoline b (omega arith)
        ∙ zero_words_outside m base (stack_bytes / 4) b (omega arith))

module _ (l : Linkage) (m : Memory) (base top : ℕ) (size : top ≡ base + stack_bytes)
    (fits : top < 2 ^ 32) where
  returning : Memory
  returning = write (zero_words m base (stack_bytes / 4)) (sub32 top 4) l.thread_exit_trampoline

  frame_word :
      (k : ℕ) → k < 17 → prepare_stack l m base top (top - 72 + 4 * k) ≡ get_or (thread_frame l) k 0
  unfolding prepare_stack returning
  frame_word k h =
      ap (λ b. write_words returning (sub32 top (4 + frame_bytes)) (thread_frame l) b)
        (omega (arith, size))
      ∙ write_words_at returning (sub32 top (4 + frame_bytes)) (thread_frame l) k h

  return_word : prepare_stack l m base top (top - 4) ≡ l.thread_exit_trampoline
  unfolding prepare_stack
  return_word =
      write_words_outside _ (sub32 top (4 + frame_bytes)) (thread_frame l) (top - 4)
        (omega (arith, size))
      ∙ ap
          (λ b.
            write (zero_words m base (stack_bytes / 4)) (sub32 top 4) l.thread_exit_trampoline b)
          (omega (arith, size))
      ∙ write_self (zero_words m base (stack_bytes / 4)) (sub32 top 4) l.thread_exit_trampoline

  cleared_word : (k : ℕ) → base + 4 * k < top - 72 → prepare_stack l m base top (base + 4 * k) ≡ 0
  unfolding prepare_stack
  cleared_word k h =
      write_words_outside _ (sub32 top (4 + frame_bytes)) (thread_frame l) (base + 4 * k)
        (omega (arith, size))
      ∙ write_ne (zero_words m base (stack_bytes / 4)) (sub32 top 4) l.thread_exit_trampoline
          (base + 4 * k) (omega (arith, size))
      ∙ zero_words_at m base (stack_bytes / 4) k (omega (arith, size))

  pub prepare_stack-HasFrame : HasFrame l (prepare_stack l m base top) base top
  prepare_stack-HasFrame = record {
    words = frame_word;
    resumes_at =
        ap (λ b. prepare_stack l m base top b) (omega (arith, size)) ∙ frame_word 14 (omega arith);
    code_segment =
        ap (λ b. prepare_stack l m base top b) (omega (arith, size)) ∙ frame_word 15 (omega arith);
    flags =
        ap (λ b. prepare_stack l m base top b) (omega (arith, size)) ∙ frame_word 16 (omega arith);
    returns_to = return_word;
    cleared = cleared_word;
  }
