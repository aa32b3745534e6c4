-- ===== src/Manifests/Templates/Workload.antt =====
-- The namespace, the deployment, the service and the quota of an app.
use tinycloud_platform.Base.{String, List, [], ◌∷◌, Str}
use tinycloud_platform.Manifests.Templates.Lines.{text}

abbrev pub namespace_template_lines : List String
namespace_template_lines =
    "apiVersion: v1" ∷ "kind: Namespace" ∷ "metadata:" ∷ "  name: {{APP_NAME}}" ∷ "  labels:"
    ∷ "    tinycloud.io/managed-by: platform" ∷ "    app.kubernetes.io/name: {{APP_NAME}}" ∷ []

unfoldable pub namespace_template : Str
unfolding text
namespace_template = text namespace_template_lines

abbrev pub deployment_template_lines : List String
deployment_template_lines =
    "apiVersion: apps/v1" ∷ "kind: Deployment" ∷ "metadata:" ∷ "  name: {{APP_NAME}}" ∷ "  labels:"
    ∷ "    app.kubernetes.io/name: {{APP_NAME}}" ∷ "    app.kubernetes.io/managed-by: tinycloud"
    ∷ "    tinycloud.io/managed-by: platform" ∷ "spec:" ∷ "  replicas: {{REPLICAS}}" ∷ "  selector:"
    ∷ "    matchLabels:" ∷ "      app.kubernetes.io/name: {{APP_NAME}}" ∷ "  template:"
    ∷ "    metadata:" ∷ "      labels:" ∷ "        app.kubernetes.io/name: {{APP_NAME}}"
    ∷ "        tinycloud.io/managed-by: platform" ∷ "    spec:" ∷ "      imagePullSecrets:"
    ∷ "        - name: ghcr-creds" ∷ "      containers:" ∷ "        - name: {{APP_NAME}}"
    ∷ "          image: {{IMAGE}}:{{TAG}}" ∷ "          imagePullPolicy: Always"
    ∷ "          ports:" ∷ "            - containerPort: {{PORT}}" ∷ "              name: http"
    ∷ "{{ENV_VARS}}"
    ∷ "          # Probes check for a listening socket rather than an HTTP health path,"
    ∷ "          # so an app needs no particular endpoint to deploy healthily."
    ∷ "          readinessProbe:" ∷ "            tcpSocket:" ∷ "              port: http"
    ∷ "            initialDelaySeconds: 5" ∷ "            periodSeconds: 5"
    ∷ "          livenessProbe:" ∷ "            tcpSocket:" ∷ "              port: http"
    ∷ "            initialDelaySeconds: 15" ∷ "            periodSeconds: 10"
    ∷ "          # Requests sized near real usage, not far below it. The scheduler packs"
    ∷ "          # by requests alone, so a 4x gap between request and limit let it keep"
    ∷ "          # placing pods on a node that reported 11% memory while actually being"
    ∷ "          # close to full." ∷ "          resources:" ∷ "            requests:"
    ∷ "              cpu: 100m" ∷ "              memory: 128Mi" ∷ "            limits:"
    ∷ "              cpu: 250m" ∷ "              memory: 256Mi" ∷ []

unfoldable pub deployment_template : Str
unfolding text
deployment_template = text deployment_template_lines

abbrev pub service_template_lines : List String
service_template_lines =
    "apiVersion: v1" ∷ "kind: Service" ∷ "metadata:" ∷ "  name: {{APP_NAME}}" ∷ "  labels:"
    ∷ "    app.kubernetes.io/name: {{APP_NAME}}" ∷ "    tinycloud.io/managed-by: platform" ∷ "spec:"
    ∷ "  selector:" ∷ "    app.kubernetes.io/name: {{APP_NAME}}" ∷ "  ports:" ∷ "    - port: 80"
    ∷ "      targetPort: http" ∷ "      name: http" ∷ []

unfoldable pub service_template : Str
unfolding text
service_template = text service_template_lines

abbrev pub resource_quota_template_lines : List String
resource_quota_template_lines =
    "apiVersion: v1" ∷ "kind: ResourceQuota" ∷ "metadata:" ∷ "  name: {{APP_NAME}}-quota" ∷ "spec:"
    ∷ "  # Sized to hold maxReplicas pods at the deployment's requests and limits."
    ∷ "  # Previously an app could pass validation at 10 replicas and then be refused"
    ∷ "  # by this quota at 6." ∷ "  hard:" ∷ "    requests.cpu: \"600m\""
    ∷ "    requests.memory: \"704Mi\"" ∷ "    limits.cpu: \"1500m\""
    ∷ "    limits.memory: \"1408Mi\"" ∷ "    pods: \"5\"" ∷ []

unfoldable pub resource_quota_template : Str
unfolding text
resource_quota_template = text resource_quota_template_lines
