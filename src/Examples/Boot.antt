-- ===== src/Examples/Boot.antt =====
-- The start of the server, a link that is handed out and an upload, at concrete inputs.
use clickwrap.Prelude.{
  arith, ℕ, ◌≡◌, ◌≤◌, refl, Bool, String, true, false, Option, none, some, [], ◌∷◌, List, String_eq,
  is_some, inl, inr, find, All, ◌==◌,
}
use clickwrap.Prelude.Dict.{get}
use clickwrap.Domain.Errors.{ok}
use clickwrap.Domain.Types.{SignedDocument, Audience, Customer, DocumentTypeDef}
use clickwrap.Store.Customers
use clickwrap.Store.Entities.{find_audience}
use clickwrap.Runtime.{World}
use clickwrap.Services.LegalEntities.{ConfigAudience, reconcile_audiences}
use clickwrap.Services.LegalEntities.Steady.{IsSteady, only_kept, reconcile_audiences-steady}
use clickwrap.Services.SignedDocuments.{UploadInput, SignedDocumentDto, to_dto, upload, get_pdf_url}
use clickwrap.Store.SignedDocuments
use clickwrap.Services.SignedDocuments.Archive.{
  IsUploadable, IsArchived, IsUntouched, upload-archives,
}
use clickwrap.Services.Integration.{CustomerSelector, resolve_integration_customer}
use clickwrap.Services.Integration.Selection.{Addressed, resolve_integration_customer-Addressed}
use clickwrap.Accept.Minting.{
  natural, CreateAcceptanceLinkInput, CreateAcceptanceLinkResult, create,
}
use clickwrap.Accept.Minting.Expiry.{IsMinted, create-IsMinted}
use clickwrap.Examples.{demo_env, tenant, demo_actor, demo_world}
use clickwrap.Examples.Admins.{demo_pdf}

abbrev tenants : Audience
tenants = record { id = "aud-1"; key = "tenant"; name = "Tenants" }

-- An audience that is not configured, which the customer still has.
abbrev boot_world : World
boot_world = record (demo_world [] []) {
  audiences =
      ("aud-1", tenants)
      ∷ ("aud-2", record { id = "aud-2"; key = "landlord"; name = "Landlords" })
      ∷ [];
  customers = ("c-1", record tenant { roles = "tenant" ∷ "landlord" ∷ [] }) ∷ [];
}

abbrev configured : List ConfigAudience
configured = record { key = "tenant"; name = "Tenants" } ∷ []

boot-IsSteady : IsSteady configured boot_world
unfolding Customers.find_all find find_audience clickwrap.Prelude.includes
boot-IsSteady = record {
  named = ((tenants, refl, refl), tt);
  kept = (inr refl, (inl (inr refl), tt));
}

reconcile_audiences-steady_example :
    (k : ℕ) × (reconcile_audiences demo_env configured boot_world ≡ (ok (only_kept k), boot_world))
reconcile_audiences-steady_example =
    reconcile_audiences-steady demo_env configured boot_world boot-IsSteady

abbrev mint_input : CreateAcceptanceLinkInput
mint_input = record { audience_key = none; expires_in_days = some (natural 7) }

abbrev mint_world : World
mint_world = demo_world [] []

abbrev minted : World
minted = (create demo_env (some "https://x.org/") "t-1" "c-1" mint_input "admin" mint_world).1

abbrev mint_result : CreateAcceptanceLinkResult
mint_result = record { link_id = "al-u0"; url = "https://x.org/accept/t-1"; expires_at = 604802000 }

mints :
    create demo_env (some "https://x.org/") "t-1" "c-1" mint_input "admin" mint_world
    ≡ (ok mint_result, minted)
unfolding Customers.find_by_id clickwrap.Accept.Minting.mint clickwrap.Prelude.trim
    clickwrap.Runtime.Audit.append_audit clickwrap.Runtime.Exec.new_id clickwrap.Runtime.Exec.now
    clickwrap.Runtime.Recorder.record_event clickwrap.Store.Links.create create get
mints = refl

create-IsMinted_example :
    (is_some (Customers.find_by_id mint_world.customers "c-1") ≡ true)
    × IsMinted "sha-t-1" "c-1" mint_result 2000 minted
create-IsMinted_example =
    create-IsMinted demo_env (some "https://x.org/") "t-1" "c-1" mint_input "admin" mint_world
      minted mint_result mints

abbrev paper_type : DocumentTypeDef
paper_type = record {
  id = "dt-1";
  key = "lease";
  name = "Lease";
  notification_template_id = none;
  reminder_template_id = none;
  acceptance_confirmation_template_id = none;
  external = some true;
}

abbrev lease : UploadInput
lease = record {
  document_type_key = "lease";
  signed_at = some 500;
  file = record { buffer = 37 ∷ []; file_name = "lease.pdf" };
  signer_name = some "Ada King";
  reference = none;
  audience = none;
  note = none;
}

abbrev paper_world : World
paper_world = record (demo_world [] []) { document_types = ("dt-1", paper_type) ∷ [] }

abbrev archived : World
archived = (upload demo_env demo_pdf 1 "c-1" lease demo_actor true paper_world).1

abbrev lease_dto : SignedDocumentDto
lease_dto = record {
  id = "sd-u0";
  customer_id = "c-1";
  document_type_key = "lease";
  audience = none;
  file_name = "lease.pdf";
  content_hash = "hash-1";
  file_size = 2;
  signed_at = 500;
  signer_name = some "Ada King";
  reference = none;
  note = none;
  uploaded_by = "user-1";
  uploaded_at = 2000;
  pdf_url = "key-1";
}

archives :
    upload demo_env demo_pdf 1 "c-1" lease demo_actor true paper_world ≡ (ok lease_dto, archived)
unfolding Customers.find_by_id clickwrap.Runtime.Exec.now clickwrap.Runtime.Recorder.record_event
    clickwrap.Services.Acceptance.Checks.required clickwrap.Services.SignedDocuments.archive
    clickwrap.Services.SignedDocuments.to_signed_document_dto
    clickwrap.Services.SignedDocuments.upload_checks clickwrap.Store.Entities.find_document_type
    find get upload
archives = refl

upload-archives_example :
    IsUploadable paper_world "c-1" lease
    × (d : SignedDocument) × IsArchived demo_pdf "c-1" lease demo_actor d
    × (SignedDocuments.find_by_id archived.signed_documents "sd-u0" ≡ some d)
    × (lease_dto ≡ to_dto demo_pdf 1 d)
    × (get_pdf_url demo_pdf 2 archived "sd-u0" ≡ ok "key-1")
    × IsUntouched paper_world archived
upload-archives_example =
    upload-archives demo_env demo_pdf 1 2 "c-1" lease demo_actor true paper_world archived lease_dto
      archives

abbrev by_reference : CustomerSelector
by_reference = record {
  customer_id = none;
  external_ref = some " x-1 ";
  audience = some "landlord";
}

abbrev landlord : Customer
landlord = record tenant { roles = "tenant" ∷ "landlord" ∷ [] }

resolves : resolve_integration_customer boot_world by_reference ≡ ok landlord
unfolding Customers.find_all_by_external_ref clickwrap.Prelude.includes clickwrap.Prelude.keep
    clickwrap.Prelude.trim clickwrap.Services.Acceptance.Checks.required
    clickwrap.Services.Compliance.resolve_audience_key find find_audience
    resolve_integration_customer
resolves = refl

resolve_integration_customer-Addressed_example :
    (landlord.deleted_at ≡ none) × Addressed boot_world by_reference landlord
resolve_integration_customer-Addressed_example =
    resolve_integration_customer-Addressed boot_world by_reference landlord resolves
