-- ===== src/Console/Every.antt =====
-- What holds of every run of the handler (AqMD3_console/src/aqmd3_console.cpp): a property of its ends
-- that each single end has.
use aq_md3_acquisition_conso.Common.{
  ℕ, ◌≡◌, refl, ap, Bool, true, false, List, [], ◌∷◌, All, if◌then◌else◌,
}
use aq_md3_acquisition_conso.Console.{
  Word, num_instruments, info, firmware, serial, init, horizontal, vertical, trig_class,
  trig_source, mode, config_digitizer, post_samples, pre_samples, setup_array, acquire_frame,
  acquire, tof_width, stop, invert, reset_timestamps, enable_io_port, disable_io_port, true_text,
  other, Call, Value, Outcome, gave, failed, killed, Devices, Settings, Console, Response, ack,
  Handled, thrown, terminated, answer, attempt, with_argument, handle_horizontal, handle_vertical,
  handle_acquire_frame, handle_invert, handle_enable, handle_disable, handle_tof_width, ensure_pool,
  handle_acquire, handle_stop, handle_word, handle_words, handle, acknowledge, call, timing_of,
  start_frame, make_pool, controller_stop, is_acquire, respond, done, crash,
}

-- The commands after whose answer the handler goes on to the payload's next word.
abbrev pub GoesOn : Word → Type 0
GoesOn info = Unit
GoesOn firmware = Unit
GoesOn serial = Unit
GoesOn init = Unit
GoesOn _ = ⊥

-- Some call can end the process.
abbrev pub Terminates : {W : Type 0} → Devices W → Type 0
Terminates {W} d = (c : Call) × (w : W) × ((d.perform c w).0 ≡ killed)

-- I holds of the variables throughout, and P of each way to end.
pub record IsClosed {W : Type 0} (d : Devices W) (I : Console W → Type 0) (P : Handled W → Type 0)
    : Type 0 where
  pub moved : (w : W) (k : Console W) → I k → I (record k { world = w })
  pub timed :
      (width post : ℕ) (k : Console W)
      → I k
      → I (record k { avg_tof_period_samples = width; calculated_post_trigger_samples = post })
  pub pooled : (k : Console W) → I k → I (record k { has_pool = true })
  pub controlled : (k : Console W) → I k → I (record k { has_controller = true })
  pub throws : (k : Console W) → I k → P (record { responses = []; ending = thrown; after = k })
  pub terminates :
      Terminates d
      → (k : Console W) → I k
      → P (record { responses = []; ending = terminated; after = k })
  pub answers : (r : Response) (k : Console W) → I k → P (respond r (done k))

-- P of the ends that no answer and no throw comes before.
abbrev pub EndsSilent : {W : Type 0} → (Console W → Type 0) → (Handled W → Type 0) → Type 0
EndsSilent {W} I P = (k : Console W) → I k → P (done k)

abbrev pub Crashes : {W : Type 0} → (Console W → Type 0) → (Handled W → Type 0) → Type 0
Crashes {W} I P = (k : Console W) → I k → k.has_controller ≡ false → P (crash k)

-- An answer in front of an end that has the property.
abbrev pub TakesMore : {W : Type 0} → (Handled W → Type 0) → Type 0
TakesMore {W} P = (r : Response) (h : Handled W) → P h → P (respond r h)

module _ {W : Type 0} (d : Devices W) (s : Settings) (I : Console W → Type 0)
    (P : Handled W → Type 0) (closed : IsClosed d I P) where
  answer-Holds :
      (c : Call) (reply : Outcome × W) (k : Console W) (rest : Value → Console W → Handled W)
      → d.perform c k.world ≡ reply
      → I k
      → ((v : Value) (k : Console W) → I k → P (rest v k))
      → P (answer reply k rest)
  unfolding answer
  answer-Holds c (failed, w) k rest e i h =
      closed.throws (record k { world = w }) (closed.moved w k i)
  answer-Holds c (killed, w) k rest e i h =
      closed.terminates (c, k.world, ap (λ x. x.0) e) (record k { world = w }) (closed.moved w k i)
  answer-Holds c (gave v, w) k rest e i h = h v (record k { world = w }) (closed.moved w k i)

  pub call-Holds :
      (c : Call) (k : Console W) (rest : Value → Console W → Handled W)
      → I k
      → ((v : Value) (k : Console W) → I k → P (rest v k))
      → P (call d s c k rest)
  call-Holds c k rest i h = answer-Holds c (d.perform c k.world) k rest refl i h

  attempt-Holds :
      (c : Call) (reply : Outcome × W) (k : Console W) (rest : Console W → Handled W)
      → d.perform c k.world ≡ reply
      → I k
      → ((k : Console W) → I k → P (rest k))
      → P (attempt reply k rest)
  unfolding attempt
  attempt-Holds c (failed, w) k rest e i h = h (record k { world = w }) (closed.moved w k i)
  attempt-Holds c (killed, w) k rest e i h =
      closed.terminates (c, k.world, ap (λ x. x.0) e) (record k { world = w }) (closed.moved w k i)
  attempt-Holds c (gave v, w) k rest e i h = h (record k { world = w }) (closed.moved w k i)

  pub with_argument-Holds :
      (payload : List Word) (act : Word → Console W → Handled W) (k : Console W)
      → I k
      → ((argument : Word) (k : Console W) → I k → P (act argument k))
      → P (with_argument d s payload act k)
  with_argument-Holds (command ∷ argument ∷ []) act k i h = h argument k i
  with_argument-Holds [] act k i h = closed.answers ack k i
  with_argument-Holds (command ∷ []) act k i h = closed.answers ack k i
  with_argument-Holds (command ∷ argument ∷ _ ∷ _) act k i h = closed.answers ack k i

  -- A call, or two, and the acknowledgement.
  abbrev pub Acts : (Word → Console W → Handled W) → Type 0
  Acts act = (w : Word) (k : Console W) → I k → P (act w k)

  pub horizontal-Acts : Acts (handle_horizontal d s)
  unfolding handle_horizontal
  horizontal-Acts w k i =
      call-Holds _ k _ i λ _ k i. call-Holds _ k _ i λ _ k i. closed.answers ack k i

  pub vertical-Acts : Acts (handle_vertical d s)
  unfolding handle_vertical
  vertical-Acts w k i =
      call-Holds _ k _ i λ _ k i. call-Holds _ k _ i λ _ k i. closed.answers ack k i

  started-Holds :
      Crashes I P
      → (k : Console W) (b : Bool) → I k
      → k.has_controller ≡ b
      → P (if b then (call d s start_frame k λ _ k. acknowledge d s k) else crash k)
  started-Holds crashes k true i e = call-Holds _ k _ i λ _ k i. closed.answers ack k i
  started-Holds crashes k false i e = crashes k i e

  pub frame-Acts : Crashes I P → Acts (handle_acquire_frame d s)
  unfolding handle_acquire_frame
  frame-Acts crashes w k i =
      call-Holds _ k _ i λ _ k i. started-Holds crashes k k.has_controller i refl

  pub invert-Acts : Acts (handle_invert d s)
  unfolding handle_invert
  invert-Acts w k i = call-Holds _ k _ i λ _ k i. closed.answers ack k i

  pub enable-Acts : Acts (handle_enable d s)
  unfolding handle_enable
  enable-Acts w k i = call-Holds _ k _ i λ _ k i. call-Holds _ k _ i λ _ k i. closed.answers ack k i

  pub disable-Acts : Acts (handle_disable d s)
  unfolding handle_disable
  disable-Acts w k i =
      call-Holds _ k _ i λ _ k i. call-Holds _ k _ i λ _ k i. closed.answers ack k i

  pub tof_width-Holds : (k : Console W) → I k → P (handle_tof_width d s k)
  unfolding handle_tof_width
  tof_width-Holds k i = call-Holds _ k _ i λ v k i. call-Holds _ k _ i λ _ k i. closed.answers _ k i

  pool_by-Holds :
      (width : ℕ) (k : Console W) (rest : Console W → Handled W) (b : Bool)
      → I k
      → ((k : Console W) → I k → P (rest k))
      → P (
          if b
          then rest k
          else call d s (make_pool width) k λ _ k'. rest (record k' { has_pool = true }))
  pool_by-Holds width k rest true i h = h k i
  pool_by-Holds width k rest false i h =
      call-Holds _ k _ i λ _ k' i'. h (record k' { has_pool = true }) (closed.pooled k' i')

  pool-Holds :
      (width : ℕ) (k : Console W) (rest : Console W → Handled W)
      → I k
      → ((k : Console W) → I k → P (rest k))
      → P (ensure_pool d s width k rest)
  unfolding ensure_pool
  pool-Holds width k rest i h = pool_by-Holds width k rest k.has_pool i h

  pub acquire-Holds : (k : Console W) → I k → P (handle_acquire d s k)
  unfolding handle_acquire
  acquire-Holds k i = call-Holds _ k _ i λ v k i. call-Holds _ k _ i λ _ k i.
      call-Holds _ _ _ (closed.timed _ _ k i) λ _ k i. pool-Holds (timing_of d s v).1.1 k _ i λ k i.
        call-Holds _ k _ i λ _ k i.
          call-Holds _ k _ i
            λ _ k i. call-Holds _ _ _ (closed.controlled k i) λ _ k i. closed.answers _ k i

  pub stopped-Holds :
      (argument : Word) (k : Console W) (b : Bool)
      → I k
      → P (
          if b
          then (attempt
              (d.perform (controller_stop (is_acquire argument)) k.world)
              k
              λ k. acknowledge d s k)
          else acknowledge d s k)
  stopped-Holds argument k true i =
      attempt-Holds (controller_stop (is_acquire argument)) _ k _ refl i
        λ k i. closed.answers ack k i
  stopped-Holds argument k false i = closed.answers ack k i

  stop-Holds :
      EndsSilent I P → (payload : List Word) (k : Console W) → I k → P (handle_stop d s payload k)
  unfolding handle_stop
  stop-Holds ends (command ∷ argument ∷ []) k i = stopped-Holds argument k k.has_controller i
  stop-Holds ends [] k i = ends k i
  stop-Holds ends (command ∷ []) k i = ends k i
  stop-Holds ends (command ∷ argument ∷ _ ∷ _) k i = ends k i

  word-Holds :
      EndsSilent I P
      → Crashes I P
      → (payload : List Word) (word : Word) (k : Console W) (rest : Console W → Handled W)
      → (GoesOn word → TakesMore P)
      → I k
      → ((k : Console W) → I k → P (rest k))
      → P (handle_word d s payload word k rest)
  unfolding handle_word
  word-Holds ends crashes payload num_instruments k rest e i h =
      call-Holds _ k _ i λ v k i. closed.answers _ k i
  word-Holds ends crashes payload info k rest e i h = call-Holds _ k _ i λ v k i. e tt _ _ (h k i)
  word-Holds ends crashes payload firmware k rest e i h =
      call-Holds _ k _ i λ v k i. e tt _ _ (h k i)
  word-Holds ends crashes payload serial k rest e i h = call-Holds _ k _ i λ v k i. e tt _ _ (h k i)
  word-Holds ends crashes payload init k rest e i h = call-Holds _ k _ i λ v k i. e tt _ _ (h k i)
  word-Holds ends crashes payload horizontal k rest e i h =
      with_argument-Holds payload _ k i horizontal-Acts
  word-Holds ends crashes payload vertical k rest e i h =
      with_argument-Holds payload _ k i vertical-Acts
  word-Holds ends crashes payload trig_class k rest e i h = h k i
  word-Holds ends crashes payload trig_source k rest e i h = h k i
  word-Holds ends crashes payload mode k rest e i h = h k i
  word-Holds ends crashes payload config_digitizer k rest e i h = h k i
  word-Holds ends crashes payload post_samples k rest e i h = h k i
  word-Holds ends crashes payload pre_samples k rest e i h = h k i
  word-Holds ends crashes payload setup_array k rest e i h = closed.answers ack k i
  word-Holds ends crashes payload acquire_frame k rest e i h =
      with_argument-Holds payload _ k i (frame-Acts crashes)
  word-Holds ends crashes payload acquire k rest e i h = acquire-Holds k i
  word-Holds ends crashes payload tof_width k rest e i h = tof_width-Holds k i
  word-Holds ends crashes payload stop k rest e i h = stop-Holds ends payload k i
  word-Holds ends crashes payload invert k rest e i h =
      with_argument-Holds payload _ k i invert-Acts
  word-Holds ends crashes payload reset_timestamps k rest e i h = ends k i
  word-Holds ends crashes payload enable_io_port k rest e i h =
      with_argument-Holds payload _ k i enable-Acts
  word-Holds ends crashes payload disable_io_port k rest e i h =
      with_argument-Holds payload _ k i disable-Acts
  word-Holds ends crashes payload true_text k rest e i h = h k i
  word-Holds ends crashes payload (other x) k rest e i h = h k i

  words-Holds :
      EndsSilent I P
      → Crashes I P
      → (payload words : List Word) (k : Console W) → All (λ word. GoesOn word → TakesMore P) words
      → I k
      → P (handle_words d s payload words k)
  unfolding handle_words
  words-Holds ends crashes payload [] k e i = ends k i
  words-Holds ends crashes payload (word ∷ words) k e i =
      word-Holds ends crashes payload word k _ e.0 i
        (λ k' i'. words-Holds ends crashes payload words k' e.1 i')

  pub handle-Holds :
      EndsSilent I P
      → Crashes I P
      → (payload : List Word) (k : Console W) → All (λ word. GoesOn word → TakesMore P) payload
      → I k
      → P (handle d s payload k)
  unfolding handle
  handle-Holds ends crashes payload k e i = words-Holds ends crashes payload payload k e i
