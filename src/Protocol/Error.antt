-- ===== src/Protocol/Error.antt =====
-- ProtocolError (_lib/proj/_protocol/src/lib.rs): one constructor for each message of the crate,
-- with the texts that the message quotes.
use swaw_kit.Prelude.{Text, Result}

-- The reasons of `invalid_route`.
pub data RouteFault : Type 0 where
  route_is_too_long : RouteFault
  must_begin_at_the_root : RouteFault
  empty_facet : RouteFault
  too_many_segments : RouteFault
  more_than_one_selector : RouteFault
  invalid_facet_id : RouteFault
  invalid_selector : RouteFault
  unselected_facet : RouteFault

pub data ProtocolError : Type 0 where
  facet_id_not_portable : ProtocolError
  selector_not_portable : ProtocolError
  too_many_hops : ProtocolError
  resource_route_too_long : ProtocolError
  facet_route_too_long : ProtocolError
  ends_at_facet : Text → ProtocolError
  ends_at_resource : Text → ProtocolError
  invalid_route : Text → RouteFault → ProtocolError
  invalid_identity_path : ProtocolError
  incompatible_namespace : ProtocolError
  identity_too_long : ProtocolError
  invalid_address : Text → ProtocolError
  too_many_requirements : ProtocolError
  invalid_requirement : ProtocolError
  too_many_provisions : ProtocolError
  invalid_provision : ProtocolError
  invalid_contract_identity : ProtocolError
  foreign_execution : Text → Text → ProtocolError
  not_one_native_owner : ProtocolError
  requirements_not_canonical : ProtocolError
  provisions_not_canonical : ProtocolError
  too_many_listed_facets : ProtocolError
  duplicate_facet_id : ProtocolError
  invalid_label : ProtocolError
  invalid_summary : ProtocolError
  wrong_list_protocol : ProtocolError
  too_many_resources : ProtocolError
  foreign_listing_route : ProtocolError
  duplicate_selector : ProtocolError
  duplicate_route : ProtocolError
  duplicate_identity : ProtocolError
  wrong_view_schema : ProtocolError
  wrong_view_source : ProtocolError
  wrong_bundle_protocol : ProtocolError
  not_one_resource : ProtocolError
  missing_facet_result : ProtocolError
  foreign_facet_result : ProtocolError
  unavailable_resource : ProtocolError
  foreign_resource_list : ProtocolError
  wrong_requirements_schema : Text → ProtocolError
  too_many_facet_requirements : ProtocolError
  invalid_facet_requirement : ProtocolError
  wrong_exports_schema : Text → ProtocolError
  too_many_exports : ProtocolError
  invalid_export : ProtocolError

abbrev pub ProtocolResult : Type 0 → Type 0
ProtocolResult A = Result ProtocolError A
