-- ===== src/Serializer.antt =====
-- serializer/file.go and serializer/json.go: messages in files. proto.Marshal, proto.Unmarshal,
-- protojson's Format and ioutil's file operations are arguments.
use g_rpc_playground.Prelude.{ℕ, String, ◌≡◌, refl, ap, sym, ◌∙◌, List}
use g_rpc_playground.Status.{wrapped}
use g_rpc_playground.Exec.{
  Exec, Outcome, fail, panicked, exited, waiting, Result, ok, err, ret, lift, or_error, zoom, ◌>>=◌,
}

-- proto.Marshal, proto.Unmarshal into a message that exists, and protojson.MarshalOptions.Format with
-- the options of ProtobufToJSON.
pub record Proto (M : Type 0) : Type 0 where
  pub marshal : M → Result (List ℕ)
  pub unmarshal : List ℕ → Exec M Unit
  pub format : M → String

-- ioutil.WriteFile with permissions 0644, ioutil.ReadFile, and []byte(text), on a file system W.
pub record Files (W : Type 0) : Type 0 where
  pub write_file : String → List ℕ → Exec W Unit
  pub read_file : String → W → Result (List ℕ)
  pub bytes_of : String → List ℕ

-- What protobuf documents: Unmarshal resets the message and then reads what Marshal wrote.
pub record Marshals {M : Type 0} (proto : Proto M) : Type 0 where
  pub unmarshal_marshal :
      (m target : M) (d : List ℕ) → proto.marshal m ≡ ok d → proto.unmarshal d target ≡ (ret tt, m)

-- What ioutil documents: a write without an error gives the file these bytes.
pub record Stores {W : Type 0} (files : Files W) : Type 0 where
  pub read_written :
      (name : String) (d : List ℕ) (w : W)
      → (files.write_file name d w).0 ≡ ret tt
      → files.read_file name (files.write_file name d w).1 ≡ ok d

module _ {M W : Type 0} (proto : Proto M) (files : Files W) where
  -- ProtobufToJSON: its error is always nil.
  unfoldable pub protobuf_to_json : M → Result String
  protobuf_to_json message = ok (proto.format message)

  -- WriteProtobufToBinaryFile
  unfoldable pub write_protobuf_to_binary_file : M → String → Exec W Unit
  write_protobuf_to_binary_file message filename = do
    bytes ←
        or_error (lift (proto.marshal message))
          (λ e. wrapped "cannot marshal proto message to binary: %w" e)
    or_error (files.write_file filename bytes)
        (λ e. wrapped "cannot write binary data to file: %w" e)

  -- ReadProtobufFromBinaryFile, into the message that it is given.
  unfoldable pub read_protobuf_from_binary_file : String → Exec (W × M) Unit
  read_protobuf_from_binary_file filename = do
    bytes ←
        or_error (λ (w, m). lift (files.read_file filename w) (w, m))
          (λ e. wrapped "cannot read binary data from file: %w" e)
    or_error (zoom (λ (w, m). m) (λ (w, m) m'. (w, m')) (proto.unmarshal bytes))
        (λ e. wrapped "cannot unmarshal binary to proto message: %w" e)

  -- WriteProtobufToJSONFile
  unfoldable pub write_protobuf_to_json_file : M → String → Exec W Unit
  write_protobuf_to_json_file message filename = do
    text ←
        or_error (lift (protobuf_to_json message))
          (λ e. wrapped "cannot marshal proto message to JSON: %w" e)
    or_error (files.write_file filename (files.bytes_of text))
        (λ e. wrapped "cannot write JSON data to file: %w" e)

  module _ (message target : M) (filename : String) (w : W) where
    -- WriteProtobufToBinaryFile.
    abbrev written : Outcome (Unit {0}) × W
    written = write_protobuf_to_binary_file message filename w

    -- How it ends, by how the write of the bytes ends.
    abbrev AtWrite : Outcome (Unit {0}) × W → Type 0
    AtWrite (ret _, w') =
        (written ≡ (ret tt, w'))
        × (read_protobuf_from_binary_file filename (w', target) ≡ (ret tt, (w', message)))
    AtWrite (fail e, w') = written ≡ (fail (wrapped "cannot write binary data to file: %w" e), w')
    AtWrite (panicked, w') = written ≡ (panicked, w')
    AtWrite (exited, w') = written ≡ (exited, w')
    AtWrite (waiting, w') = written ≡ (waiting, w')

    -- How it ends, by what proto.Marshal returns.
    abbrev pub AtMarshal : Result (List ℕ) → Type 0
    AtMarshal (ok d) = AtWrite (files.write_file filename d w)
    AtMarshal (err e) = written ≡ (fail (wrapped "cannot marshal proto message to binary: %w" e), w)

    module _ (laws : Marshals proto) (disk : Stores files) where
      written-AtWrite :
          (d : List ℕ)
          → proto.marshal message ≡ ok d
          → (r : Outcome (Unit {0}) × W) → files.write_file filename d w ≡ r
          → AtWrite r
      unfolding write_protobuf_to_binary_file read_protobuf_from_binary_file
      written-AtWrite d m (ret tt, w') e =
          let there =
            ap (λ x. files.read_file filename x.1) (sym e)
            ∙ disk.read_written filename d w (ap (λ x. x.0) e) in
          (rw m (rw e), rw there (rw (laws.unmarshal_marshal message target d m)))
      written-AtWrite d m (fail x, w') e = rw m (rw e)
      written-AtWrite d m (panicked, w') e = rw m (rw e)
      written-AtWrite d m (exited, w') e = rw m (rw e)
      written-AtWrite d m (waiting, w') e = rw m (rw e)

      written-AtMarshal : (r : Result (List ℕ)) → proto.marshal message ≡ r → AtMarshal r
      unfolding write_protobuf_to_binary_file
      written-AtMarshal (ok d) m = written-AtWrite d m _ refl
      written-AtMarshal (err e) m = rw m

      -- With protobuf and ioutil as documented, WriteProtobufToBinaryFile on any message and file: where
      -- the message cannot be marshalled it returns that error, wrapped, and leaves the files as they
      -- are; where the write of the bytes fails it returns that error, wrapped; and else it returns no
      -- error, and ReadProtobufFromBinaryFile then reads the file into any message as the message that
      -- was written, and leaves the files as they are.
      pub read_protobuf_from_binary_file-write : AtMarshal (proto.marshal message)
      read_protobuf_from_binary_file-write = written-AtMarshal _ refl
