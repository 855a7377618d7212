-- ===== src/Kern/Trap/Fault.antt =====
-- How page_fault_handler of mit-6.828/lab/kern/trap.c hands a fault to the environment's handler.
use mathlib.Core.Path.{subst}
use papers_annotation.Prelude.{
  ℕ, ◌+◌, ◌-◌, ◌%◌, ◌≤◌, ◌<◌, ◌≡◌, ◌≢◌, ◌⊎◌, refl, ap, sym, ◌∙◌, arith, some, true, false, leb, ltb,
  ◌==◌, ◌&&◌, inl, inr, bit_or, Bool-cases,
}
use papers_annotation.Mmu.{pgsize, rounddown, pte_u, pte_w}
use papers_annotation.Kern.State.{
  Trapframe, Env, Kernel, running, returned, resumed, bind, bind-returned,
}
use papers_annotation.Kern.Pgdir.UserMem.{
  HasTables, permits, permits_page, range_end, user_mem_check_decides,
}
use papers_annotation.Kern.Syscall.{the_curenv, user_mem_assert}
use papers_annotation.Kern.Syscall.Errors.{curenv-returned}
use papers_annotation.Kern.Dispatch.{Machine, OtherCalls}
use papers_annotation.Kern.Trap.{
  Frame, of_env, frame, set_tf, uxstacktop, fault_stack, utrapframe, call_handler,
  page_fault_handler, trap_dispatch, leave, trap,
}
use papers_annotation.Kern.Trap.Return.{FromUser, came_in, trap-FromUser, leave-resumes}

user_mem_assert-passes :
    (c d va len perm : ℕ) (k : Kernel)
    → (k.envs c).env_pgdir ≡ some d
    → HasTables k d
    → va < range_end va len
    → range_end va len ≤ uxstacktop
    → ((x : ℕ)
        → rounddown va pgsize ≤ x
        → x < range_end va len
        → permits k d (bit_or perm pte_u) x ≡ true)
    → user_mem_assert c va len perm k ≡ returned tt k
unfolding user_mem_assert
user_mem_assert-passes c d va len perm k p t low fits all =
    elim (user_mem_check_decides (k.envs c) d va len (bit_or perm pte_u) k p t (omega arith)) [
      | inl (e, _, _, _) ↦ simp e
      | inr (_, inl high) ↦ ground arith
      | inr (_, inr (inl bad)) ↦ ground arith
      | inr (_, inr (inr (x, a, b, e))) ↦ cc (e, all x a b)
    ]

-- The page of the exception stack is mapped for the environment to write.
abbrev pub HasStack : Kernel → ℕ → Type 0
HasStack k d = permits k d (bit_or pte_w pte_u) (uxstacktop - pgsize) ≡ true

stack_writable :
    (k : Kernel) (c d va len : ℕ)
    → (k.envs c).env_pgdir ≡ some d
    → HasTables k d
    → HasStack k d
    → 0 < len
    → uxstacktop - pgsize ≤ va
    → va + len ≤ uxstacktop
    → user_mem_assert c va len pte_w k ≡ returned tt k
stack_writable k c d va len p t s some_bytes low high =
    user_mem_assert-passes c d va len pte_w k p t (omega arith) (omega arith)
      λ x a b. permits_page k d (bit_or pte_w pte_u) x (uxstacktop - pgsize) (omega arith) ∙ s

-- The frame for the handler does not run over the lower end of the exception stack.
abbrev pub HasRoom : ℕ → Type 0
HasRoom esp = (esp < uxstacktop - pgsize) ⊎ (uxstacktop - pgsize + 56 ≤ esp)

-- The frame lies on the exception stack: below the word under a stack pointer into it, else at its top.
abbrev pub Fits : ℕ → ℕ → Type 0
Fits esp s =
    (uxstacktop - pgsize ≤ s)
    × (s + 52 ≤ uxstacktop)
    × (uxstacktop - pgsize ≤ esp → esp < uxstacktop → s + 56 ≡ esp)
    × ((esp < uxstacktop - pgsize) ⊎ (uxstacktop ≤ esp) → s + 52 ≡ uxstacktop)

fault_stack-Fits : (esp : ℕ) → HasRoom esp → Fits esp (fault_stack esp)
fault_stack-Fits esp room =
    elim (Bool-cases (leb (uxstacktop - pgsize) esp && ltb esp uxstacktop)) [
      | inl inside ↦ (ground arith, ground arith, λ a b. ground arith, λ out. ground arith)
      | inr outside ↦ (ground arith, ground arith, λ a b. ground arith, λ out. ground arith)
    ]

abbrev store : Machine → ℕ → Kernel → Kernel
store hw c k =
    let t = (k.envs c).env_tf in
    record k { mem = hw.store_frame k (fault_stack t.tf_esp) (utrapframe hw.cr2 t) }

abbrev to_stack : ℕ → ℕ → Kernel → Kernel
to_stack c s k = set_tf c (record ((k.envs c).env_tf) { tf_esp = s }) k

abbrev to_upcall : ℕ → Kernel → Kernel
to_upcall c k = set_tf c (record ((k.envs c).env_tf) { tf_eip = (k.envs c).env_pgfault_upcall }) k

abbrev handed : Machine → ℕ → Kernel → Kernel
handed hw c k = to_upcall c (to_stack c (fault_stack (k.envs c).env_tf.tf_esp) (store hw c k))

call_handler-handed :
    (hw : Machine) (k : Kernel) (c d : ℕ)
    → (k.envs c).env_pgfault_upcall ≢ 0
    → (k.envs c).env_pgdir ≡ some d
    → HasTables k d
    → HasStack k d
    → HasRoom (k.envs c).env_tf.tf_esp
    → call_handler hw (of_env c) c k ≡ returned tt (handed hw c k)
unfolding call_handler
call_handler-handed hw k c d up p t s room =
    let esp = (k.envs c).env_tf.tf_esp in
    let (low, high, _, _) = fault_stack-Fits esp room in
    let has : ((k.envs c).env_pgfault_upcall == 0) ≡ false = ground (arith, up) in
    let page =
      stack_writable k c d (uxstacktop - pgsize) pgsize p t s (omega arith) (omega arith)
        (omega arith) in
    let area = stack_writable k c d (fault_stack esp) 52 p t s (omega arith) low high in
    simp (has, page, area)

trap_dispatch-14 :
    (hw : Machine) (others : OtherCalls) (k : Kernel) (tf : Frame)
    → (frame tf k).tf_trapno ≡ 14
    → trap_dispatch hw others tf k ≡ page_fault_handler hw tf k
unfolding trap_dispatch
trap_dispatch-14 hw others k tf is_14 =
    let at_14 : ((frame tf k).tf_trapno == 14) ≡ true = ground (arith, is_14) in rw at_14 refl

page_fault_handler-user :
    (hw : Machine) (k : Kernel) (tf : Frame) (c : ℕ)
    → (frame tf k).tf_cs % 4 ≡ 3
    → k.curenv ≡ some c
    → page_fault_handler hw tf k ≡ call_handler hw tf c k
unfolding page_fault_handler
page_fault_handler-user hw k tf c user_mode cur =
    let not_kernel : ((frame tf k).tf_cs % 4 == 0) ≡ false = ground (arith, user_mode) in
    simp not_kernel (bind-returned the_curenv (call_handler hw tf) c k k (curenv-returned c k cur))

-- The environment at its handler.
abbrev at_upcall : Env → Env
at_upcall e = record e {
  env_tf = record (e.env_tf) {
    tf_esp = fault_stack e.env_tf.tf_esp;
    tf_eip = e.env_pgfault_upcall;
  };
}

handed-at_upcall :
    (hw : Machine) (c : ℕ) (k : Kernel) → (handed hw c k).envs c ≡ at_upcall (k.envs c)
handed-at_upcall hw c k = let same : (c == c) ≡ true = ground arith in rw same refl

-- A page fault in user mode of a running environment that has a page fault upcall and, mapped for it to
-- write, the page of its exception stack, with room there for one more frame: the CPU goes on in the
-- environment at the upcall, in its address space and with the kernel lock released; the stack pointer
-- is at a UTrapframe with the registers at the fault and the faulting address, on the exception stack,
-- a word below the stack pointer if that was on it and at its top if not; the other registers are
-- those at the fault, and no memory changes but by the storing of that frame.
pub trap-page_fault :
    (hw : Machine) (others : OtherCalls) (t : Trapframe) (k : Kernel) (c d : ℕ)
    → FromUser hw t k c
    → t.tf_trapno ≡ 14
    → (k.envs c).env_status ≡ running
    → (k.envs c).env_pgdir ≡ some d
    → (k.envs c).env_pgfault_upcall ≢ 0
    → HasTables k d
    → HasStack k d
    → HasRoom t.tf_esp
    → (k' : Kernel) × (s : ℕ) × (trap hw others t k ≡ resumed c k')
      × Fits t.tf_esp s
      × ((k'.envs c).env_tf ≡ record t { tf_esp = s; tf_eip = (k.envs c).env_pgfault_upcall })
      × (k'.mem ≡ hw.store_frame (came_in c t k) s (utrapframe hw.cr2 t))
      × (k'.cr3 ≡ d)
      × (k'.kernel_locked ≡ false)
      × (k'.curenv ≡ some c)
trap-page_fault hw others t k c d u is_14 run dir up tables stack room =
    let same : (c == c) ≡ true = ground arith in
    let k1 = came_in c t k in
    let k2 = handed hw c k1 in
    let s = fault_stack t.tf_esp in
    let env1 : k1.envs c ≡ record (k.envs c) { env_tf = t } = rw same refl in
    let framed : (k1.envs c).env_tf ≡ t = ap (λ e. e.env_tf) env1 in
    let env2 : k2.envs c ≡ record (k.envs c) {
      env_tf = record t { tf_esp = s; tf_eip = (k.envs c).env_pgfault_upcall };
    } =
      handed-at_upcall hw c k1 ∙ ap at_upcall env1 in
    let up1 : (k1.envs c).env_pgfault_upcall ≢ 0 =
      λ e. up (sym (ap (λ e. e.env_pgfault_upcall) env1) ∙ e) in
    let room1 = subst (λ t. HasRoom t.tf_esp) (sym framed) room in
    let dispatched : trap_dispatch hw others (of_env c) k1 ≡ returned tt k2 =
      trap_dispatch-14 hw others k1 (of_env c) (ap (λ t. t.tf_trapno) framed ∙ is_14)
      ∙ page_fault_handler-user hw k1 (of_env c) c (ap (λ t. t.tf_cs % 4) framed ∙ u.user_mode)
          u.current
      ∙ call_handler-handed hw k1 c d up1 (ap (λ e. e.env_pgdir) env1 ∙ dir) tables stack room1 in
    let (k', e, on) =
      leave-resumes k2 c d u.current (ap (λ e. e.env_status) env2 ∙ run)
        (ap (λ e. e.env_pgdir) env2 ∙ dir) in
    (
      k',
      s,
      trap-FromUser hw others t k c u ∙ ap (λ o. bind o (λ _. leave)) dispatched ∙ e,
      fault_stack-Fits t.tf_esp room,
      ap (λ e. e.env_tf) on.env ∙ ap (λ e. e.env_tf) env2,
      on.memory ∙ ap (λ t. hw.store_frame k1 (fault_stack t.tf_esp) (utrapframe hw.cr2 t)) framed,
      on.address_space,
      on.lock_free,
      on.still_current,
    )
