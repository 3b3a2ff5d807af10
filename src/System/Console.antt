-- ===== src/System/Console.antt =====
-- The console: CharBuffer and IO of h/io.hpp and src/io.cpp.
pub mod Window
pub mod Exchange
use os1_proj.Prelude.{ℕ, ◌+◌, ◌%◌, true, ◌==◌, if◌then◌else◌}
use Prim.Native.Nat.{bit_and}
use os1_proj.Registers.{ms_sstatus, mc_sstatus, r_sstatus, sstatus_sie}
use os1_proj.Threads.{Ptr, null, Mode}
use os1_proj.Threads.Sync.{signal}
use os1_proj.System.{CharBuffer, System, Program, done, change, read, wait_at, with_kernel}
use os1_proj.System.Create.{Start, allocate, semaphore_create, thread_create, default_time_slice}

-- CharBuffer::length
abbrev pub capacity : ℕ
capacity = 256

-- CharBuffer::put
unfoldable pub put : CharBuffer → ℕ → CharBuffer
put b c = record b {
  buffer = λ i. if i == b.pos_w then c else b.buffer i;
  pos_w = (b.pos_w + 1) % capacity;
}

-- CharBuffer::get
unfoldable pub get : CharBuffer → CharBuffer × ℕ
get b = (record b { pos_r = (b.pos_r + 1) % capacity }, b.buffer b.pos_r)

abbrev pub at_buffer : System → Ptr → (CharBuffer → CharBuffer) → System
at_buffer s p f = record s { buffers = λ x. if x == p then f (s.buffers x) else s.buffers x }

-- `sem->signal()`, for a semaphore of the buffer
unfoldable pub signal_at : System → Ptr → System
signal_at s sem = with_kernel s (signal s.kernel sem 1).0

-- CharBuffer::kPut
unfoldable pub k_put : (p : Ptr) → (c : ℕ) → Program
unfolding put signal_at
k_put p c =
    wait_at (λ s. (s.buffers p).sem_put) 1
      (wait_at (λ s. (s.buffers p).mutex) 1
        (change (λ s. at_buffer s p (λ b. put b c))
          (change (λ s. signal_at s (s.buffers p).mutex)
            (change (λ s. signal_at s (s.buffers p).sem_get) (done (λ s. 0))))))

-- CharBuffer::kGet
unfoldable pub k_get : (p : Ptr) → Program
unfolding get signal_at
k_get p =
    wait_at (λ s. (s.buffers p).sem_get) 1
      (wait_at (λ s. (s.buffers p).mutex) 1
        (read (λ s. (get (s.buffers p)).1)
          (λ c.
            change (λ s. at_buffer s p (λ b. (get b).0))
              (change (λ s. signal_at s (s.buffers p).mutex)
                (change (λ s. signal_at s (s.buffers p).sem_put) (done (λ s. c)))))))

-- The interrupts are off while a thread of the system is at the buffer.
unfoldable pub interrupts_off : System → System
interrupts_off s = record s { registers = mc_sstatus s.registers sstatus_sie }

unfoldable pub interrupts_back : (sstatus : ℕ) → System → System
interrupts_back sstatus s = record s {
  registers = ms_sstatus s.registers (if bit_and sstatus sstatus_sie == 0 then 0 else sstatus_sie);
}

-- CharBuffer::uPut
unfoldable pub u_put : (p : Ptr) → (c : ℕ) → Program
unfolding put signal_at interrupts_off interrupts_back
u_put p c =
    read (λ s. r_sstatus s.registers)
      (λ sstatus. change interrupts_off (
        wait_at (λ s. (s.buffers p).sem_put) 1
          (wait_at (λ s. (s.buffers p).mutex) 1
            (change (λ s. at_buffer s p (λ b. put b c))
              (change (λ s. signal_at s (s.buffers p).mutex)
                (change (λ s. signal_at s (s.buffers p).sem_get)
                  (change (interrupts_back sstatus) (done (λ s. 0)))))))))

-- CharBuffer::uGet, and what is done with the character.
unfoldable pub u_get : (p : Ptr) → (ℕ → Program) → Program
unfolding get signal_at interrupts_off interrupts_back
u_get p use_char =
    read (λ s. r_sstatus s.registers)
      (λ sstatus. change interrupts_off (
        wait_at (λ s. (s.buffers p).sem_get) 1
          (wait_at (λ s. (s.buffers p).mutex) 1
            (read (λ s. (get (s.buffers p)).1)
              (λ c.
                change (λ s. at_buffer s p (λ b. (get b).0))
                  (change (λ s. signal_at s (s.buffers p).mutex)
                    (change (λ s. signal_at s (s.buffers p).sem_put)
                      (change (interrupts_back sstatus) (use_char c)))))))))

-- CharBuffer's constructor
unfoldable pub construct_buffer : System → Ptr → System
construct_buffer s p =
    let (s1, sem_put) = semaphore_create s capacity in
    let (s2, sem_get) = semaphore_create s1 0 in
    let (s3, mutex) = semaphore_create s2 1 in
    at_buffer s3 p
      (λ b. record b { pos_w = 0; pos_r = 0; sem_put = sem_put; sem_get = sem_get; mutex = mutex })

unfoldable pub buffer_create : System → System × Ptr
unfolding construct_buffer
buffer_create s = let (s1, p) = allocate s s.build.sizeof_buffer in (construct_buffer s1 p, p)

abbrev routine : Ptr → Start
routine body = record {
  body = body;
  arg = 0;
  mode = Mode.system;
  user_stack_space = null;
  time_slice = default_time_slice;
}

-- IO::init, given the addresses of the two routines.
unfoldable pub io_init : (input_routine output_routine : Ptr) → System → System
unfolding buffer_create
io_init input_routine output_routine s =
    let (s1, input) = buffer_create s in
    let s2 = record s1 { input_buffer = input } in
    let (s3, output) = buffer_create s2 in
    let s4 = record s3 { output_buffer = output } in
    (thread_create (thread_create s4 (routine input_routine) true).0 (routine output_routine)
      true).0
