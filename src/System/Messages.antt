-- ===== src/System/Messages.antt =====
-- Kernel::handleSend and Kernel::handleReceive between threads that need not wait.
use os1_proj.Prelude.{
  ℕ, zero, suc, ◌≤◌, length, List, [], ◌∷◌, ◌++◌, ◌⊎◌, inl, inr, ◌≡◌, ◌≢◌, refl, sym, ap, subst,
  ◌∙◌, false, ◌==◌, ==_false, ◌+w◌, if◌then◌else◌, arith,
}
use os1_proj.Threads.{Ptr, Kernel, at_sem}
use os1_proj.Threads.Sync.{signal, resolve_manner}
use os1_proj.Threads.Open.{
  IsOpen, IsOpen-frame, Changes, taken, wait_open, wait_open-Changes, signal_open,
  signal_open-Changes,
}
use os1_proj.System.{System, Program, change, done, wait_at, returned, exec, with_kernel}
use os1_proj.System.Runs.{runs_on}
use os1_proj.System.Console.{signal_at}
use os1_proj.System.Handlers.{msg_len, first_chars, set_msg, handle_send, handle_receive}

-- The two semaphores of `t` count the places for a message and the messages, and nobody waits.
pub record IsMailbox (k : Kernel) (t : Ptr) (places messages : ℕ) : Type 0 where
  pub sends : IsOpen k (k.tcb t).sem_send places
  pub receives : IsOpen k (k.tcb t).sem_receive messages
  pub two : (k.tcb t).sem_send ≢ (k.tcb t).sem_receive

-- The characters `ds` are those of `cs`, up to the first 256.
pub record IsCut (cs ds : List ℕ) : Type 0 where
  pub rest : List ℕ
  pub whole : ds ++ rest ≡ cs
  pub full : (rest ≡ []) ⊎ (length ds ≡ 256)
  pub few : length ds ≤ 256

record Cut (n : ℕ) (cs ds : List ℕ) : Type 0 where
  rest : List ℕ
  whole : ds ++ rest ≡ cs
  full : (rest ≡ []) ⊎ (length ds ≡ n)
  few : length ds ≤ n

first_chars-Cut : (n : ℕ) (cs : List ℕ) → Cut n cs (first_chars n cs)
unfolding first_chars
first_chars-Cut zero cs = record { rest = cs; whole = refl; full = inr refl; few = omega arith }
first_chars-Cut (suc n) [] = record { rest = []; whole = refl; full = inl refl; few = omega arith }
first_chars-Cut (suc n) (c ∷ cs) =
    let short = first_chars-Cut n cs in
    record {
      rest = short.rest;
      whole = ap (λ ds. c ∷ ds) short.whole;
      full = elim short.full [ inl e ↦ inl e | inr e ↦ inr (ap suc e) ];
      few = omega (arith, short.few);
    }

first_chars-IsCut : (cs : List ℕ) → IsCut cs (first_chars msg_len cs)
first_chars-IsCut cs =
    let cut = first_chars-Cut 256 cs in
    record { rest = cut.rest; whole = cut.whole; full = cut.full; few = cut.few }

module _ (s : System) (t msg : Ptr) (other : t ≢ s.kernel.running) where
  abbrev post : Program
  post =
      change (λ s. with_kernel s (set_msg s.kernel t (s.strings msg)))
        (change (λ s. signal_at s (s.kernel.tcb t).sem_receive) (done (λ s. 0)))

  abbrev posted : Kernel
  posted = set_msg (taken s.kernel (s.kernel.tcb t).sem_send 1) t (s.strings msg)

  posted_places :
      ((posted.tcb t).sem_send ≡ (s.kernel.tcb t).sem_send)
      × ((posted.tcb t).sem_receive ≡ (s.kernel.tcb t).sem_receive)
      × ((posted.tcb t).message ≡ first_chars msg_len (s.strings msg))
  unfolding set_msg
  posted_places = (ground arith, ground arith, ground arith)

  send_runs :
      IsMailbox s.kernel t 1 0
      → exec (handle_send t msg) s
        ≡ (with_kernel s (signal posted (posted.tcb t).sem_receive 1).0, returned 0)
  unfolding handle_send exec signal_at
  send_runs m =
      let apart : (t == s.kernel.running) ≡ false = ==_false t s.kernel.running other in
      ap
        (λ b. exec (if b then done (λ s. 0) else wait_at (λ s. (s.kernel.tcb t).sem_send) 1 post) s)
        apart
      ∙ runs_on s (λ s. (s.kernel.tcb t).sem_send) 1 post
          (taken s.kernel (s.kernel.tcb t).sem_send 1)
          (resolve_manner (taken s.kernel (s.kernel.tcb t).sem_send 1))
          (wait_open s.kernel (s.kernel.tcb t).sem_send 1 1 m.sends (omega arith))

  module _ (m : IsMailbox s.kernel t 1 0) where
    abbrev paid :
        Changes s.kernel (s.kernel.tcb t).sem_send 0 (taken s.kernel (s.kernel.tcb t).sem_send 1)
    paid = wait_open-Changes s.kernel (s.kernel.tcb t).sem_send 1 1 m.sends

    opened : IsOpen posted (posted.tcb t).sem_receive 0
    unfolding set_msg
    opened =
        let r = (s.kernel.tcb t).sem_receive in
        subst (λ z. IsOpen posted z 0) (sym posted_places.1)
          (IsOpen-frame s.kernel posted r 0 (paid.others r (λ e. m.two (sym e))) m.receives)

    abbrev delivered : Kernel
    delivered = (signal posted (posted.tcb t).sem_receive 1).0

    same_threads : delivered.tcb ≡ posted.tcb
    same_threads = ap (λ k. k.tcb) (signal_open posted (posted.tcb t).sem_receive 0 1 opened)

    delivered-IsMailbox : IsMailbox delivered t 0 1
    unfolding set_msg
    delivered-IsMailbox =
        let (send, receive, text) = posted_places in
        let told = signal_open-Changes posted (posted.tcb t).sem_receive 0 1 opened (omega arith) in
        let send' = ap (λ f. (f t).sem_send) same_threads ∙ send in
        let receive' = ap (λ f. (f t).sem_receive) same_threads in
        record {
          sends =
              subst (λ z. IsOpen delivered z 0) (sym send')
                (IsOpen-frame (taken s.kernel (s.kernel.tcb t).sem_send 1) delivered
                  (s.kernel.tcb t).sem_send 0
                  (told.others (s.kernel.tcb t).sem_send (λ e. m.two (e ∙ receive))) paid.this_one);
          receives = subst (λ z. IsOpen delivered z 1) (sym receive') told.this_one;
          two = λ e. m.two (sym send' ∙ (e ∙ (receive' ∙ receive)));
        }

  -- If `t` is not the running thread, has two different semaphores, no message and a place for
  -- one, and nobody waits at either, then send returns 0 and leaves it the string, or its first 256
  -- characters if it is longer, with no place for another.
  pub send_delivers :
      IsMailbox s.kernel t 1 0
      → let (s', r) = exec (handle_send t msg) s in
        (r ≡ returned 0)
        × IsCut (s.strings msg) (s'.kernel.tcb t).message
        × IsMailbox s'.kernel t 0 1
  send_delivers m =
      subst
        (λ o.
          (o.1 ≡ returned 0)
          × IsCut (s.strings msg) (o.0.kernel.tcb t).message
          × IsMailbox o.0.kernel t 0 1)
        (sym (send_runs m))
        (
          refl,
          subst (λ ds. IsCut (s.strings msg) ds)
              (sym (ap (λ f. (f t).message) (same_threads m) ∙ posted_places.2))
              (first_chars-IsCut (s.strings msg)),
          delivered-IsMailbox m,
        )

module _ (s : System) where
  abbrev me : Ptr
  me = s.kernel.running

  abbrev read_on : Program
  read_on =
      change (λ s. signal_at s (s.kernel.tcb s.kernel.running).sem_send)
        (done (λ s. s.kernel.running +w s.build.offset_message))

  abbrev received : Kernel
  received = taken s.kernel (s.kernel.tcb me).sem_receive 1

  received_places :
      ((received.tcb me).sem_send ≡ (s.kernel.tcb me).sem_send)
      × ((received.tcb me).sem_receive ≡ (s.kernel.tcb me).sem_receive)
      × ((received.tcb me).message ≡ (s.kernel.tcb me).message)
  received_places = (ground arith, ground arith, ground arith)

  module _ (m : IsMailbox s.kernel me 0 1) where
    abbrev fetched : Changes s.kernel (s.kernel.tcb me).sem_receive 0 received
    fetched = wait_open-Changes s.kernel (s.kernel.tcb me).sem_receive 1 1 m.receives

    freed : IsOpen received (received.tcb me).sem_send 0
    freed =
        let p = (s.kernel.tcb me).sem_send in
        subst (λ z. IsOpen received z 0) (sym received_places.0)
          (IsOpen-frame s.kernel received p 0 (fetched.others p m.two) m.sends)

    abbrev emptied : Kernel
    emptied = (signal received (received.tcb me).sem_send 1).0

    emptied_only :
        emptied
        ≡ at_sem received (received.tcb me).sem_send (λ a. record a { value = a.value +w 1 })
    emptied_only = signal_open received (received.tcb me).sem_send 0 1 freed

    emptied-IsMailbox : IsMailbox emptied me 1 0
    emptied-IsMailbox =
        let (send, receive, text) = received_places in
        let told =
          signal_open-Changes received (received.tcb me).sem_send 0 1 freed (omega arith) in
        let same = ap (λ k. k.tcb) emptied_only in
        let send' = ap (λ f. (f me).sem_send) same in
        let receive' = ap (λ f. (f me).sem_receive) same ∙ receive in
        record {
          sends = subst (λ z. IsOpen emptied z 1) (sym send') told.this_one;
          receives =
              subst (λ z. IsOpen emptied z 0) (sym receive')
                (IsOpen-frame received emptied (s.kernel.tcb me).sem_receive 0
                  (told.others (s.kernel.tcb me).sem_receive (λ e. m.two (sym (e ∙ send))))
                  fetched.this_one);
          two = λ e. m.two (sym (send' ∙ send) ∙ (e ∙ receive'));
        }

    receive_runs :
        exec handle_receive s
        ≡ (with_kernel s emptied, returned (emptied.running +w s.build.offset_message))
    unfolding handle_receive exec signal_at
    receive_runs =
        runs_on s (λ s. (s.kernel.tcb s.kernel.running).sem_receive) 1 read_on received
          (resolve_manner received)
          (wait_open s.kernel (s.kernel.tcb me).sem_receive 1 1 m.receives (omega arith))

    -- If the running thread has two different semaphores, a message and no place for another, and
    -- nobody waits at either, then receive returns the address of its message, which is as it was,
    -- and there is a place for another.
    pub receive_takes :
        let (s', r) = exec handle_receive s in
        (r ≡ returned (me +w s.build.offset_message))
        × ((s'.kernel.tcb me).message ≡ (s.kernel.tcb me).message)
        × IsMailbox s'.kernel me 1 0
    receive_takes =
        subst
          (λ o.
            (o.1 ≡ returned (me +w s.build.offset_message))
            × ((o.0.kernel.tcb me).message ≡ (s.kernel.tcb me).message)
            × IsMailbox o.0.kernel me 1 0)
          (sym receive_runs)
          (
            ap (λ k. returned (k.running +w s.build.offset_message)) emptied_only,
            ap (λ k. (k.tcb me).message) emptied_only ∙ received_places.2,
            emptied-IsMailbox,
          )
