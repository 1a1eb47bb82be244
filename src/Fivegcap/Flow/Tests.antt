-- ===== src/Fivegcap/Flow/Tests.antt =====
-- A capture of two UEs, run through `build_flows`, and the theorems at it.
use net_cortex.Prelude.{
  ℕ, ◌+◌, String, ◌≡◌, ◌≢◌, refl, Option, none, some, List, [], ◌∷◌, map, arith, false, All,
  Pairwise, filter, not, nat_eq, pair_eq, option_eq, string_eq, ends_with, length, sum, count_from,
}
use net_cortex.Prelude.Dict.{get, put, pop, values}
use net_cortex.Fivegcap.Messages.{NgapMsg, NasMsg}
use net_cortex.Fivegcap.Flow.{
  registration, accept, build_flows, run, step, step_associated, flow_for, handle, nas_of, release,
  nas_level, nas_named, close_nas, close_opened, ngap_level, start_ngap, complete_ngap,
  complete_oldest, flow_key, sorted_assoc, kind_eq, is_associated,
}
use net_cortex.Fivegcap.Flow.Partition.{ngap_messages, key_of, belongs, build_flows-partition}
use net_cortex.Fivegcap.Flow.Ids.{build_flows-ids, build_flows-total, message_count}
use net_cortex.Fivegcap.Flow.Closing.{HasEnded}
use net_cortex.Fivegcap.Flow.Timely.{build_flows-HasEnded}

abbrev message : ℕ → ℕ × ℕ → String → Option ℕ → Option (List ℕ) → NgapMsg
message ts assoc name ue pdu = record {
  ts = ts;
  assoc = assoc;
  name = some name;
  ran_ue_id = ue;
  amf_ue_id = none;
  nas_pdu = pdu;
  f_teids = [];
  unparsed = none;
}

abbrev capture : List NgapMsg
capture =
    message 1 (9000, 38412) "NGSetupRequest" none none
    ∷ message 2 (9000, 38412) "InitialUEMessage" (some 1) (some (65 ∷ []))
    ∷ message 3 (9000, 38412) "UplinkNASTransport" (some 2) none
    ∷ message 5 (38412, 9000) "InitialContextSetupRequest" (some 1) none
    ∷ []

-- a decoder that knows one message
abbrev decoder : List ℕ → Option ℕ → NasMsg
decoder bytes algo = record {
  name = some "5GMMRegistrationRequest";
  protected = false;
  inner = none;
  cause = none;
  ciph_algo = none;
  supi = some "001010000000001";
  unparsed = none;
}

first_flow_procedures :
    map (λ f. f.procedures) (build_flows decoder capture).0
    ≡ (record {
      kind = registration;
      start_ts = 2;
      start_msg = "InitialUEMessage";
      end_ts = some 5;
      end_msg = some "InitialContextSetupRequest";
      outcome = accept;
    }
        ∷ [])
      ∷ []
      ∷ []
unfolding build_flows run step step_associated flow_for handle nas_of release nas_level nas_named
    close_nas close_opened ngap_level start_ngap complete_ngap complete_oldest flow_key sorted_assoc
    kind_eq nat_eq pair_eq option_eq string_eq get put pop values ends_with
first_flow_procedures = refl

build_flows-partition_example :
    All (λ f. ngap_messages f ≡ filter (belongs (key_of f)) capture) (build_flows decoder capture).0
    × Pairwise (λ f g. key_of f ≢ key_of g) (build_flows decoder capture).0
    × ((build_flows decoder capture).1 ≡ filter (λ ng. not (is_associated ng)) capture)
build_flows-partition_example = build_flows-partition decoder capture

build_flows-ids_example :
    map (λ f. f.flow_id) (build_flows decoder capture).0
    ≡ count_from 1 (length (build_flows decoder capture).0)
build_flows-ids_example = build_flows-ids decoder capture

build_flows-total_example :
    sum (map message_count (build_flows decoder capture).0) + length (build_flows decoder capture).1
    ≡ 4
build_flows-total_example = build_flows-total decoder capture

build_flows-HasEnded_example : All (λ f. All HasEnded f.procedures) (build_flows decoder capture).0
build_flows-HasEnded_example = build_flows-HasEnded decoder capture (omega arith)
