-- ===== src/Pipeline/Routing.antt =====
-- Which frames go where: ProcessSubject::on_notify (AqMD3_console/src/processsubject.cpp), for the
-- parameters of a request and of an acquisition without end
-- (AqMD3_console/include/util/uimfhelpers.h).
use aq_md3_acquisition_conso.Common.{
  ℕ, ◌+◌, ◌≡◌, refl, sym, ap, subst, ◌∙◌, Bool, true, false, List, [], ◌∷◌, map, length,
  if◌then◌else◌, arith,
}
use aq_md3_acquisition_conso.Encode.{UimfFrameParameters, UimfAcquisitionRecord, to_frame}
use aq_md3_acquisition_conso.Publish.Events.{Follow}
use aq_md3_acquisition_conso.Queue.{SubscriberType, acquire, acquire_frame, shares, frame_type}
use aq_md3_acquisition_conso.Pipeline.Rows.{forwarded}

-- The fields of a request.
pub record UimfRequestMessage : Type 0 where
  pub start_trigger : ℕ
  pub nbr_samples : ℕ
  pub nbr_accumulations : ℕ
  pub frame_length : ℕ
  pub frame_number : ℕ
  pub offset_bins : ℕ
  pub file_name : List ℕ

unfoldable pub uimf_message_to_parameters : UimfRequestMessage → UimfFrameParameters
uimf_message_to_parameters message = record {
  start_trigger = message.start_trigger;
  nbr_samples = message.nbr_samples;
  nbr_accumulations = message.nbr_accumulations;
  frame_length = message.frame_length;
  frame_number = message.frame_number;
  offset_bins = message.offset_bins;
  file_name = message.file_name;
}

unfoldable pub create_inf_params : UimfFrameParameters
create_inf_params = record {
  start_trigger = 0;
  nbr_samples = 0;
  nbr_accumulations = 0;
  frame_length = 18446744073709551615;
  frame_number = 1;
  offset_bins = 20000;
  file_name = [];
}

forwarded-whole :
    (parameters : UimfFrameParameters) (wanted : SubscriberType) (b : Bool) (from : ℕ)
    (records : List UimfAcquisitionRecord) (to : ℕ)
    → shares (frame_type parameters) wanted ≡ b
    → Follow parameters from records to
    → forwarded wanted records ≡ (if b then map to_frame records else [])
unfolding forwarded Follow
forwarded-whole parameters wanted true from [] to e h = refl
forwarded-whole parameters wanted false from [] to e h = refl
forwarded-whole parameters wanted b from (r ∷ records) to e h =
    let here : shares (frame_type r.parameters) wanted ≡ b =
      subst (λ p. shares (frame_type p) wanted ≡ b) (sym h.0) e in
    let onward =
      forwarded-whole parameters wanted b (from + length r.acquired.stamps) records to e h.1.1 in
    ap (λ (x : Bool). if x then to_frame r ∷ forwarded wanted records else forwarded wanted records)
      here
    ∙ go b onward
  where
    go :
        (b : Bool)
        → forwarded wanted records ≡ (if b then map to_frame records else [])
        → (if b then to_frame r ∷ forwarded wanted records else forwarded wanted records)
          ≡ (if b then to_frame r ∷ map to_frame records else [])
    go true p = ap (λ fs. to_frame r ∷ fs) p
    go false p = p

unfoldable pub names_file : UimfFrameParameters → Bool
names_file parameters = elim parameters.file_name [ [] ↦ false | _ ∷ _ ↦ true ]

shares-live : (parameters : UimfFrameParameters) → shares (frame_type parameters) acquire ≡ true
unfolding shares frame_type
shares-live parameters = ground arith

shares-writer :
    (parameters : UimfFrameParameters)
    → shares (frame_type parameters) acquire_frame ≡ names_file parameters
unfolding shares frame_type names_file
shares-writer parameters = ground arith

-- The live stream gets every batch of a request's frame; the file writer gets every one if the request
-- names a file, and none if it does not.
pub forwarded_by_request :
    (message : UimfRequestMessage) (from : ℕ) (records : List UimfAcquisitionRecord) (to : ℕ)
    → Follow (uimf_message_to_parameters message) from records to
    → (forwarded acquire records ≡ map to_frame records)
      × (forwarded acquire_frame records
          ≡ (if names_file (uimf_message_to_parameters message) then map to_frame records else []))
forwarded_by_request message from records to h =
    let parameters = uimf_message_to_parameters message in
    (
      forwarded-whole parameters acquire true from records to (shares-live parameters) h,
      forwarded-whole parameters acquire_frame (names_file parameters) from records to
          (shares-writer parameters) h,
    )

-- An acquisition without end is never written.
pub forwarded-create_inf_params :
    (from : ℕ) (records : List UimfAcquisitionRecord) (to : ℕ)
    → Follow create_inf_params from records to
    → forwarded acquire_frame records ≡ []
unfolding create_inf_params names_file
forwarded-create_inf_params from records to h =
    forwarded-whole create_inf_params acquire_frame false from records to
      (shares-writer create_inf_params) h
