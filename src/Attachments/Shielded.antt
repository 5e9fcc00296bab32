-- ===== src/Attachments/Shielded.antt =====
-- Whose attachments a customer reads.
use mathlib.Core.Path.{subst}
use b2b_stm.Prelude.{
  ℕ, ◌≡◌, refl, sym, Bool, true, false, not, Option, none, some, arith, any, nat_eq, if◌then◌else◌,
}
use b2b_stm.Text.{Text, uuid_value}
use b2b_stm.Table.{lookup}
use b2b_stm.Tx.{Result, ok, err, bad_request}
use b2b_stm.StockCount.{versioned_test}
use b2b_stm.Identity.Guard.{Principal}
use b2b_stm.Attachments.{
  ResourceType, Attachment, Files, customer_of, is_customer_role, authorize_for, authorize_found,
  authorize, same_id, allowed_content, content_for, content_of,
}

same_id-some : (c : ℕ) (o : Option ℕ) → same_id c o ≡ true → o ≡ some c
same_id-some c none e = cc
same_id-some c (some d) e = ground (arith, e)

authorize_for-own :
    (p : Principal) (type : ResourceType) (write : Bool) (customer c : ℕ)
    → any is_customer_role p.roles ≡ true
    → authorize_for p type write customer ≡ ok c
    → p.customer_id ≡ some customer
unfolding authorize_for
authorize_for-own p type write customer c is e =
    same_id-some customer p.customer_id (ground (arith, is, e))

authorize-own :
    (p : Principal) (type : ResourceType) (write : Bool) (o : Option ℕ) (c : ℕ)
    → any is_customer_role p.roles ≡ true
    → authorize_found p type write o ≡ ok c
    → o ≡ p.customer_id
unfolding authorize_for
authorize-own p type write none c is e = cc
authorize-own p type write (some customer) c is e =
    sym (authorize_for-own p type write customer c is e)

allowed_content-own :
    (p : Principal) (f : Files) (b a : Attachment) (r : Result ℕ)
    → any is_customer_role p.roles ≡ true
    → authorize_found p b.resource_type false (customer_of b.resource_type b.resource_id f) ≡ r
    → allowed_content b r ≡ ok a
    → customer_of a.resource_type a.resource_id f ≡ p.customer_id
unfolding authorize_for lookup
allowed_content-own p f b a (err x) is e k = cc
allowed_content-own p f b a (ok c) is e k =
    let same : b ≡ a = ground (arith, k) in
    subst (λ (z : Attachment). customer_of z.resource_type z.resource_id f ≡ p.customer_id) same
      (authorize-own p b.resource_type false (customer_of b.resource_type b.resource_id f) c is e)

content_for-own :
    (p : Principal) (f : Files) (o : Option Attachment) (a : Attachment)
    → any is_customer_role p.roles ≡ true
    → content_for p f o ≡ ok a
    → customer_of a.resource_type a.resource_id f ≡ p.customer_id
unfolding authorize
content_for-own p f none a is e = cc
content_for-own p f (some b) a is e =
    allowed_content-own p f b a (authorize p b.resource_type b.resource_id false f) is refl e

-- Whose content a user with the customer role is given, belongs to a shipment or return of the user's own
-- customer.
pub content_of-own :
    (p : Principal) (id : Text) (f : Files) (a : Attachment)
    → any is_customer_role p.roles ≡ true
    → content_of p id f ≡ ok a
    → customer_of a.resource_type a.resource_id f ≡ p.customer_id
unfolding content_of
content_of-own p id f a is e = go (not (versioned_test id)) e
  where
    go :
        (b : Bool)
        → (if b
            then err (bad_request "Invalid attachment ID")
            else content_for p f (lookup (uuid_value id) f.business_attachments))
          ≡ ok a
        → customer_of a.resource_type a.resource_id f ≡ p.customer_id
    go true k = cc
    go false k = content_for-own p f (lookup (uuid_value id) f.business_attachments) a is k
