-- ===== src/Manifests/Templates/Policy.antt =====
-- The network policies, the pull secret, the kustomization and the image updater of an app.
use tinycloud_platform.Base.{String, List, [], ◌∷◌, Str}
use tinycloud_platform.Manifests.Templates.Lines.{text}

abbrev pub network_policies_template_lines : List String
network_policies_template_lines =
    "apiVersion: networking.k8s.io/v1" ∷ "kind: NetworkPolicy" ∷ "metadata:"
    ∷ "  name: default-deny" ∷ "spec:" ∷ "  podSelector: {}" ∷ "  policyTypes:" ∷ "    - Ingress"
    ∷ "    - Egress" ∷ "---" ∷ "apiVersion: networking.k8s.io/v1" ∷ "kind: NetworkPolicy"
    ∷ "metadata:" ∷ "  name: allow-platform-ingress" ∷ "spec:" ∷ "  podSelector: {}"
    ∷ "  policyTypes:" ∷ "    - Ingress" ∷ "  ingress:" ∷ "    - from:"
    ∷ "        - namespaceSelector:" ∷ "            matchLabels:"
    ∷ "              kubernetes.io/metadata.name: tinycloud" ∷ "      ports:"
    ∷ "        - protocol: TCP" ∷ "          port: {{PORT}}" ∷ "---"
    ∷ "apiVersion: networking.k8s.io/v1" ∷ "kind: NetworkPolicy" ∷ "metadata:"
    ∷ "  name: allow-monitoring-ingress" ∷ "spec:" ∷ "  podSelector: {}" ∷ "  policyTypes:"
    ∷ "    - Ingress" ∷ "  ingress:" ∷ "    - from:" ∷ "        - namespaceSelector:"
    ∷ "            matchLabels:" ∷ "              kubernetes.io/metadata.name: monitoring"
    ∷ "      ports:" ∷ "        - protocol: TCP" ∷ "          port: {{PORT}}" ∷ "---"
    ∷ "apiVersion: networking.k8s.io/v1" ∷ "kind: NetworkPolicy" ∷ "metadata:"
    ∷ "  name: allow-dns-egress" ∷ "spec:" ∷ "  podSelector: {}" ∷ "  policyTypes:" ∷ "    - Egress"
    ∷ "  egress:" ∷ "    - to:" ∷ "        - namespaceSelector:" ∷ "            matchLabels:"
    ∷ "              kubernetes.io/metadata.name: kube-system" ∷ "          podSelector:"
    ∷ "            matchLabels:" ∷ "              k8s-app: kube-dns" ∷ "      ports:"
    ∷ "        - protocol: UDP" ∷ "          port: 53" ∷ "        - protocol: TCP"
    ∷ "          port: 53" ∷ []

unfoldable pub network_policies_template : Str
unfolding text
network_policies_template = text network_policies_template_lines

abbrev pub pull_secret_template_lines : List String
pull_secret_template_lines =
    "apiVersion: external-secrets.io/v1beta1" ∷ "kind: ExternalSecret" ∷ "metadata:"
    ∷ "  name: ghcr-creds" ∷ "  namespace: {{APP_NAME}}" ∷ "  labels:"
    ∷ "    app.kubernetes.io/name: {{APP_NAME}}" ∷ "    app.kubernetes.io/managed-by: tinycloud"
    ∷ "spec:" ∷ "  refreshInterval: 1h" ∷ "  secretStoreRef:" ∷ "    name: oci-vault"
    ∷ "    kind: ClusterSecretStore" ∷ "  target:" ∷ "    name: ghcr-creds"
    ∷ "    creationPolicy: Orphan" ∷ "    deletionPolicy: Retain" ∷ "    template:"
    ∷ "      # CRD defaults, written out so the generated app does not sit permanently"
    ∷ "      # OutOfSync against fields the API server fills in." ∷ "      engineVersion: v2"
    ∷ "      mergePolicy: Replace" ∷ "      type: kubernetes.io/dockerconfigjson" ∷ "      data:"
    ∷ "        .dockerconfigjson: '{{ index . \".dockerconfigjson\" }}'" ∷ "  dataFrom:"
    ∷ "    - extract:" ∷ "        key: ghcr-creds"
    ∷ "        # CRD defaults again, on the extract this time. The template block above"
    ∷ "        # needed the same treatment; both are fields the API server fills in and"
    ∷ "        # git has to claim, or the diff never closes."
    ∷ "        conversionStrategy: Default" ∷ "        decodingStrategy: None"
    ∷ "        metadataPolicy: None" ∷ []

unfoldable pub pull_secret_template : Str
unfolding text
pull_secret_template = text pull_secret_template_lines

abbrev pub kustomization_template_lines : List String
kustomization_template_lines =
    "apiVersion: kustomize.config.k8s.io/v1beta1" ∷ "kind: Kustomization" ∷ ""
    ∷ "namespace: {{APP_NAME}}" ∷ "" ∷ "resources:" ∷ "  - namespace.yaml" ∷ "  - pull-secret.yaml"
    ∷ "  - deployment.yaml" ∷ "  - service.yaml" ∷ "  - resource-quota.yaml"
    ∷ "  - network-policies.yaml" ∷ "" ∷ "images:" ∷ "  - name: {{IMAGE}}" ∷ "    newTag: {{TAG}}"
    ∷ []

unfoldable pub kustomization_template : Str
unfolding text
kustomization_template = text kustomization_template_lines

abbrev pub image_updater_template_lines : List String
image_updater_template_lines =
    "apiVersion: argocd-image-updater.argoproj.io/v1alpha1" ∷ "kind: ImageUpdater" ∷ "metadata:"
    ∷ "  name: {{APP_NAME}}" ∷ "  namespace: argocd" ∷ "spec:" ∷ "  commonUpdateSettings:"
    ∷ "    updateStrategy: newest-build" ∷ "    allowTags: \"regexp:^[a-f0-9]{40}$\""
    ∷ "    pullSecret: pullsecret:argocd/ghcr-creds" ∷ "" ∷ "  writeBackConfig:" ∷ "    method: git"
    ∷ "    gitConfig:" ∷ "      branch: main" ∷ "" ∷ "  applicationRefs:"
    ∷ "    - namePattern: {{APP_NAME}}" ∷ "      images:" ∷ "        - alias: app"
    ∷ "          imageName: {{IMAGE}}" ∷ []

unfoldable pub image_updater_template : Str
unfolding text
image_updater_template = text image_updater_template_lines
