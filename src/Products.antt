-- ===== src/Products.antt =====
-- grpc-service/productInfo-server/productInfo-server.go: the product service.
pub mod Main
pub mod Client
use g_rpc_playground.Prelude.{
  String, ◌≡◌, refl, ◌==◌, Option, none, some, [], if◌then◌else◌, Bool-cases, inl, inr,
  Option-cases,
}
use g_rpc_playground.Status.{Error, status, internal, not_found}
use g_rpc_playground.Exec.{
  Outcome, Exec, Result, ok, err, ret, fail, pure, raise, lift, modify, or_error, ◌>>=◌, ◌>>◌,
}
use g_rpc_playground.Dict.{Dict, get, put, get-put}
use g_rpc_playground.Pb.Orders.{Product, ProductId}

-- productInfoServer: the map is nil until the first product.
pub record ProductInfoServer (F : Type 0) : Type 0 where
  pub product_map : Option (Dict (Product F))

module _ {F : Type 0} where
  -- What a map that may be nil holds.
  abbrev pub entries : Option (Dict (Product F)) → Dict (Product F)
  entries none = []
  entries (some m) = m

  -- AddProduct, with the answer of uuid.NewUUID. A nil map is replaced by an empty one.
  unfoldable pub add_product : Result String → Product F → Exec (ProductInfoServer F) ProductId
  add_product fresh product = do
    id ← or_error (lift fresh) (λ _. status internal "Error while generating product id")
    modify (λ s. record s { product_map = some (entries s.product_map) })
    modify (λ s. record s {
      product_map = some (put (entries s.product_map) id (record product { id = id }));
    })
    pure (record { value = id })

  abbrev pub answer_for : Option (Product F) → Outcome (Product F)
  answer_for none = fail (status not_found "Product not found.")
  answer_for (some product) = ret product

  found_product : {S : Type 0} → Option (Product F) → Exec S (Product F)
  found_product (some product) = pure product
  found_product none = raise (status not_found "Product not found.")

  -- GetProduct; reading a nil map finds nothing.
  unfoldable pub get_product : ProductId → Exec (ProductInfoServer F) (Product F)
  unfolding found_product
  get_product product_id s = found_product (get (entries s.product_map) product_id.value) s

  get_product_lem :
      (id : String) (s : ProductInfoServer F)
      → get_product (record { value = id }) s ≡ (answer_for (get (entries s.product_map) id), s)
  unfolding get_product found_product
  get_product_lem id s = elim (Option-cases (get (entries s.product_map) id)) [
    | inl e ↦ rw e
    | inr (product, e) ↦ rw e
  ]

  -- AddProduct with a new ID answers with that ID; GetProduct of it then returns the product under the
  -- ID, and GetProduct of any other ID what it returned before. Without an ID it answers Internal and
  -- changes nothing.
  get_product-add_product :
      (id : String) (e : Error) (product : Product F) (s : ProductInfoServer F) (other : String)
      → ((add_product (ok id) product s).0 ≡ ret (record { value = id }))
        × ((get_product (record { value = other }) (add_product (ok id) product s).1).0 ≡ (
            if id == other
            then ret (record product { id = id })
            else (get_product (record { value = other }) s).0))
        × (add_product (err e) product s
            ≡ (fail (status internal "Error while generating product id"), s))
  unfolding add_product
  get_product-add_product id e product s other = (
    refl,
    rw (get_product_lem other, get_product_lem other)
        (rw (get-put (entries s.product_map) id (record product { id = id }) other)
          (elim (Bool-cases (id == other)) [ inl h ↦ rw h | inr h ↦ rw h ])),
    refl,
  )
