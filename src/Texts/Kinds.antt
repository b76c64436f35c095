-- ===== src/Texts/Kinds.antt =====
-- `ParseBackendKind` and `BackendKindName` (backend/inference_backend.cc).
use laminar_inference.Base.{◌≡◌, refl, Bool, false, ◌||◌, List, [], ◌∷◌, if◌then◌else◌}
use laminar_inference.Base.Text.{Str, codes, str_eq}
use laminar_inference.Texts.{
  is_space, to_lower, trim_left, trim_right, trim_whitespace, lower, trim_lower,
}

pub data BackendKind : Type 0 where
  simulator tiny_text_model tiny_llm continuous_tiny_llm onnx_runtime llama_cpp llama_server :
      BackendKind

abbrev pub one_of : Str → List Str → Bool
one_of s [] = false
one_of s (t ∷ ts) = str_eq s t || one_of s ts

unfoldable pub parse_backend_kind : Str → BackendKind
parse_backend_kind raw =
    let normalized = trim_lower raw in
    if one_of normalized
      (codes "tiny_model" ∷ codes "tiny-text" ∷ codes "tiny_text" ∷ codes "tiny_text_model" ∷ [])
    then tiny_text_model
    else if one_of normalized
        (codes "tiny_llm" ∷ codes "tiny-llm" ∷ codes "tiny_decoder" ∷ codes "tiny_decoder_llm" ∷ [])
    then tiny_llm
    else if one_of normalized (
        codes "continuous_tiny_llm"
        ∷ codes "continuous-tiny-llm"
        ∷ codes "continuous_llm"
        ∷ codes "continuous-llm"
        ∷ [])
    then continuous_tiny_llm
    else if one_of normalized
        (codes "llama_cpp" ∷ codes "llama-cpp" ∷ codes "llama" ∷ codes "gguf" ∷ [])
    then llama_cpp
    else if one_of normalized (
        codes "llama_server"
        ∷ codes "llama-server"
        ∷ codes "llama.cpp-server"
        ∷ codes "llama_server_http"
        ∷ [])
    then llama_server
    else if one_of normalized (codes "onnx" ∷ codes "onnxruntime" ∷ codes "onnx_runtime" ∷ [])
    then onnx_runtime
    else simulator

unfoldable pub backend_kind_name : BackendKind → Str
backend_kind_name llama_server = codes "llama_server"
backend_kind_name llama_cpp = codes "llama_cpp"
backend_kind_name onnx_runtime = codes "onnx"
backend_kind_name continuous_tiny_llm = codes "continuous_tiny_llm"
backend_kind_name tiny_llm = codes "tiny_llm"
backend_kind_name tiny_text_model = codes "tiny_text_model"
backend_kind_name simulator = codes "simulator"

-- The name of every backend is parsed as that backend.
pub parse_backend_kind-backend_kind_name :
    (kind : BackendKind) → parse_backend_kind (backend_kind_name kind) ≡ kind
unfolding parse_backend_kind backend_kind_name trim_lower lower trim_whitespace trim_left trim_right
    is_space to_lower str_eq
parse_backend_kind-backend_kind_name simulator = refl
parse_backend_kind-backend_kind_name tiny_text_model = refl
parse_backend_kind-backend_kind_name tiny_llm = refl
parse_backend_kind-backend_kind_name continuous_tiny_llm = refl
parse_backend_kind-backend_kind_name onnx_runtime = refl
parse_backend_kind-backend_kind_name llama_cpp = refl
parse_backend_kind-backend_kind_name llama_server = refl
