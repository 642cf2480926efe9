-- ===== src/Core/Correlator/Pairing.antt =====
-- Every response is labelled with the method of the request it answers, whatever else is in flight.
use mjx_acp_agent.Prelude.{
  String, Option, none, some, arith, ◌==◌, ◌≡◌, List, [], ◌∷◌, Bool, true, false, ==-refl, refl,
  ◌∙◌, ◌&&◌,
}
use mjx_acp_agent.Prelude.Map.{lookup-insert, lookup-remove}
use mjx_acp_agent.Core.Frame.{
  RequestId, Frame, ResponsePayload, RawValue, request, response, notification, id_eq,
}
use mjx_acp_agent.Core.Correlator.{
  Direction, client_to_agent, agent_to_client, flip, MethodCorrelator, observe, peek,
}

abbrev same_way : Direction → Direction → Bool
same_way client_to_agent client_to_agent = true
same_way agent_to_client agent_to_client = true
same_way _ _ = false

-- Whether a frame asks or answers request `i` of the peer that sends in direction `d`.
abbrev pub touches : Direction → RequestId → Direction × Frame → Bool
touches d i (way, request j method params) = same_way way d && j == i
touches d i (way, response j payload) = same_way (flip way) d && j == i
touches d i (way, notification method params) = false

abbrev pub Untouched : Direction → RequestId → List (Direction × Frame) → Type 0
Untouched d i [] = Unit
Untouched d i (f ∷ fs) = (touches d i f ≡ false) × Untouched d i fs

pub observe_all : MethodCorrelator → List (Direction × Frame) → MethodCorrelator
observe_all c [] = c
observe_all c ((way, f) ∷ fs) = observe_all (observe c way f).0 fs

pub peek-observe_ne :
    (c : MethodCorrelator) (d way : Direction) (i : RequestId) (f : Frame)
    → touches d i (way, f) ≡ false
    → peek (observe c way f).0 d i ≡ peek c d i
unfolding peek observe
peek-observe_ne c d way i (request j m p) h =
    ground (arith, lookup-insert j i m c.from_client, lookup-insert j i m c.from_agent)
peek-observe_ne c d way i (response j p) h =
    ground (arith, lookup-remove j i c.from_client, lookup-remove j i c.from_agent)
peek-observe_ne c d way i (notification m p) h = refl

pub peek-observe_all :
    (c : MethodCorrelator) (d : Direction) (i : RequestId) (fs : List (Direction × Frame))
    → Untouched d i fs
    → peek (observe_all c fs) d i ≡ peek c d i
unfolding observe_all
peek-observe_all c d i [] u = refl
peek-observe_all c d i ((way, f) ∷ fs) u =
    peek-observe_all (observe c way f).0 d i fs u.1 ∙ peek-observe_ne c d way i f u.0

pub peek-request :
    (c : MethodCorrelator) (d : Direction) (i : RequestId) (m : String) (p : Option RawValue)
    → peek (observe c d (request i m p)).0 d i ≡ some m
unfolding peek observe
peek-request c d i m p =
    ground (arith, lookup-insert i i m c.from_client, lookup-insert i i m c.from_agent, ==-refl i)

pub observe-response :
    (c : MethodCorrelator) (d : Direction) (i : RequestId) (payload : ResponsePayload)
    → ((observe c (flip d) (response i payload)).1 ≡ peek c d i)
      × (peek (observe c (flip d) (response i payload)).0 d i ≡ none)
unfolding peek observe
observe-response c d i payload =
    ground (arith, lookup-remove i i c.from_client, lookup-remove i i c.from_agent, ==-refl i)

-- A response is labelled with the method of the request it answers and the request is then forgotten,
-- whatever frames pass between the two in either direction, if none of them asks or answers a request
-- of that number from the same peer.
pub response_pairs :
    (c : MethodCorrelator) (d : Direction) (i : RequestId) (m : String) (p : Option RawValue)
    (fs : List (Direction × Frame)) (payload : ResponsePayload)
    → Untouched d i fs
    → let later = observe_all (observe c d (request i m p)).0 fs in
      ((observe later (flip d) (response i payload)).1 ≡ some m)
      × (peek (observe later (flip d) (response i payload)).0 d i ≡ none)
response_pairs c d i m p fs payload u =
    let (label, gone) =
      observe-response (observe_all (observe c d (request i m p)).0 fs) d i payload in
    (
      label ∙ peek-observe_all (observe c d (request i m p)).0 d i fs u ∙ peek-request c d i m p,
      gone,
    )
