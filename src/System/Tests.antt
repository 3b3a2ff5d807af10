-- ===== src/System/Tests.antt =====
-- The theorems about system calls and the console in a system with fourteen free blocks and a buffer
-- at 1000, whose semaphores are 61, 62 and 63.
use os1_proj.Prelude.{
  ℕ, zero, suc, ◌+◌, ◌-◌, ◌%◌, ◌≤◌, ◌≡◌, ◌≢◌, refl, true, false, List, [], ◌∷◌, ◌++◌, arith, ◌==◌,
  if◌then◌else◌, length, ◌+w◌,
}
use os1_proj.Memory.{round_up, block}
use os1_proj.Memory.Manager
use os1_proj.Memory.Manager.{Manager, Owner, unused}
use os1_proj.Memory.Manager.Layout.{tile, same, alloc, carve, remains}
use os1_proj.Memory.Manager.Alloc.{mem_alloc-alloc}
use os1_proj.Memory.Manager.State.{Represents}
use os1_proj.Memory.Manager.Tests.{booted, booted-Represents}
use os1_proj.Threads.{null, Mode, Semaphore}
use os1_proj.Threads.Tests.{two_waiting, fresh}
use os1_proj.System.{System, Program, exec, returned, suspended}
use os1_proj.System.Console.{capacity, k_put, k_get}
use os1_proj.System.Console.Window.{Window}
use os1_proj.System.Console.Exchange.{Serves, k_put_queues, k_put_full, k_get_queues}
use os1_proj.Api.{mem_alloc, mem_free}
use os1_proj.System.Handlers.{handle_send, handle_receive}
use os1_proj.System.Messages.{IsCut, IsMailbox, send_delivers, receive_takes}
use os1_proj.Api.Calls.{answered, ecall_from, mem_alloc_call, mem_free_call-mem_alloc}

abbrev counting : ℕ → Semaphore
counting n = record {
  sem_id = 0;
  creator = null;
  next_sem = null;
  value = n;
  blocked_head = null;
  blocked_tail = null;
  active = true;
}

-- A system whose buffer holds `n` times the character 65.
abbrev pub holding : ℕ → System
holding n = record {
  memory = booted;
  kernel = record two_waiting {
    sem = λ x.
        if x == 61 then counting (capacity - n) else if x == 62 then counting n else counting 1;
  };
  buffers = λ x. record {
    buffer = λ i. 65;
    pos_w = n % capacity;
    pos_r = 0;
    sem_put = 61;
    sem_get = 62;
    mutex = 63;
  };
  input_buffer = 1000;
  output_buffer = 2000;
  input_pass = false;
  output_pass = false;
  master = 300;
  words = λ x. 0;
  strings = λ x. 72 ∷ 105 ∷ [];
  registers = record {
    scause = 0;
    sepc = 0;
    stvec = 0;
    stval = 0;
    sip = 0;
    sstatus = 0;
    a0 = 0;
    a1 = 0;
    ra = 0;
  };
  in_interrupt = false;
  build = record {
    sizeof_tcb = 600;
    sizeof_semaphore = 56;
    sizeof_buffer = 300;
    offset_message = 320;
  };
}

abbrev same_characters : ℕ → List ℕ
same_characters zero = []
same_characters (suc n) = 65 ∷ same_characters n

length-same_characters : (n : ℕ) → length (same_characters n) ≡ n
length-same_characters zero = refl
length-same_characters (suc n) = omega (arith, length-same_characters n)

Window-same_characters : (n r : ℕ) → Window (λ i. 65) r (same_characters n)
Window-same_characters zero r = tt
Window-same_characters (suc n) r = (refl, Window-same_characters n ((r + 1) % capacity))

holding-Serves : (n : ℕ) → n ≤ capacity → Serves (holding n) 1000 (same_characters n)
holding-Serves n fits =
    let e = length-same_characters n in
    record {
      holds = record {
        fits = omega (arith, fits, e);
        reads = omega arith;
        writes = omega (arith, e);
        window = Window-same_characters n 0;
      };
      places = rw e (record { active = refl; value = refl; nobody = refl });
      characters = rw e (record { active = refl; value = refl; nobody = refl });
      unlocked = record { active = refl; value = refl; nobody = refl };
      put_mutex = ground arith;
      get_mutex = ground arith;
      put_get = ground arith;
    }

k_put_queues_example :
    let (s', r) = exec (k_put 1000 66) (holding 1) in
    (r ≡ returned 0) × Serves s' 1000 (same_characters 1 ++ 66 ∷ [])
k_put_queues_example =
    k_put_queues (holding 1) 1000 (same_characters 1) (holding-Serves 1 (omega arith)) 66
      (omega arith)

k_put_full_example :
    let (s', r) = exec (k_put 1000 66) (holding 256) in
    ((rest : Program) × (r ≡ suspended rest)) × (s'.buffers ≡ (holding 256).buffers)
k_put_full_example =
    k_put_full (holding 256) 1000 (same_characters 256) (holding-Serves 256 (omega arith)) 66
      (length-same_characters 256)

k_get_queues_example :
    let (s', r) = exec (k_get 1000) (holding 2) in
    (r ≡ returned 65) × Serves s' 1000 (same_characters 1)
k_get_queues_example =
    k_get_queues (holding 2) 1000 65 (same_characters 1) (holding-Serves 2 (omega arith))

mem_alloc_call_example :
    let (m, p) = Manager.mem_alloc booted Owner.user (round_up 100 block) in
    exec (mem_alloc (ecall_from Mode.user) 4096 100) (holding 0)
    ≡ (answered Mode.user 4096 p (round_up 100 block) m (holding 0), returned p)
mem_alloc_call_example = mem_alloc_call Mode.user 4096 100 (holding 0) (λ x. ground arith)

given : (Manager.mem_alloc booted Owner.user (round_up 100 block)).1 ≢ null
unfolding alloc same carve remains round_up
given e =
    let out =
      mem_alloc-alloc booted Owner.user 2 (omega arith) (tile 128 14 unused ∷ [])
        booted-Represents in
    omega (arith, e, out.0)

mem_free_call-mem_alloc_example :
    let p = (Manager.mem_alloc booted Owner.user (round_up 100 block)).1 in
    let (s1, r1) = exec (mem_alloc (ecall_from Mode.user) 4096 100) (holding 0) in
    let (s2, r2) = exec (mem_free (ecall_from Mode.user) 8192 p) s1 in
    (r1 ≡ returned p) × (r2 ≡ returned 0) × Represents s2.memory (tile 128 14 unused ∷ [])
mem_free_call-mem_alloc_example =
    mem_free_call-mem_alloc Mode.user 4096 8192 100 (holding 0) (tile 128 14 unused ∷ [])
      (omega arith) (λ x. ground arith) booted-Represents (refl, tt) given

-- The thread 300 runs; the threads' semaphores are 63 for sending and 62 for receiving.
abbrev posting : (messages : ℕ) → System
posting n = record (holding n) {
  kernel = record (holding n).kernel {
    tcb = λ x. record fresh { sem_send = 63; sem_receive = 62 };
    sem = λ x. if x == 62 then counting n else counting (1 - n);
  };
}

send_delivers_example :
    let (s', r) = exec (handle_send 400 5000) (posting 0) in
    (r ≡ returned 0)
    × IsCut (72 ∷ 105 ∷ []) (s'.kernel.tcb 400).message
    × IsMailbox s'.kernel 400 0 1
send_delivers_example = send_delivers (posting 0) 400 5000 (omega arith) (record {
  sends = record { active = refl; value = refl; nobody = refl };
  receives = record { active = refl; value = refl; nobody = refl };
  two = omega arith;
})

receive_takes_example :
    let (s', r) = exec handle_receive (posting 1) in
    (r ≡ returned (300 +w 320)) × ((s'.kernel.tcb 300).message ≡ []) × IsMailbox s'.kernel 300 1 0
receive_takes_example = receive_takes (posting 1) (record {
  sends = record { active = refl; value = refl; nobody = refl };
  receives = record { active = refl; value = refl; nobody = refl };
  two = omega arith;
})
